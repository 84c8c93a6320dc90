-- ===== src/Services/Incidents/Announced.antt =====
-- The incidents and their events while incidents come in.
use mathlib.Core.List.Memᴰ
use ai_support_engineering_p.Agent.Models.{IncidentCreatedEvent}
use ai_support_engineering_p.Common.{
  Bool, Option, String, Text, [], ap, false, if◌then◌else◌, inl, inr, map, none, refl, some, sym,
  true, ℕ, ◌+◌, ◌∙◌,
}
use ai_support_engineering_p.Common.Exec.{Result, err, ok}
use ai_support_engineering_p.Common.Exec.Triple.{
  Attempted-same, Ends, Ends-mono, Triple, Triple-attempt, Triple-bind, Triple-mono, Triple-pure,
}
use ai_support_engineering_p.Db.{IncidentRecord}
use ai_support_engineering_p.Events.Delivery.{ReachedBroker, Sound, one_for, published_count}
use ai_support_engineering_p.Events.Dispatched.{dispatch_event-Outcomes}
use ai_support_engineering_p.Events.Dispatcher.{Dispatch, dispatch_event}
use ai_support_engineering_p.Events.Outbox.{Broker, OutboxWorld, add_event, is_published}
use ai_support_engineering_p.Services.Analyzer.{
  IncidentAnalysisResponse, IncidentRequest, analyze_incident,
}
use ai_support_engineering_p.Services.Incidents.{
  Intake, analyze_and_persist_incident, both_rows, committed, create, event_row, new_row,
  persist_incident,
}
use ai_support_engineering_p.Services.Incidents.Stored.{
  Both, Recorded, analyze_and_persist_incident_lem, told,
}
use mathlib.Core.Bool.{true≢false}
use mathlib.Core.List.{Memᴰ}

-- Each incident has an event in the outbox, and what is marked as published has reached the broker.
pub record Announced (w : OutboxWorld) : Type 0 where
  pub event_for :
      (r : IncidentRecord)
      → Memᴰ r w.db.incidents
      → (x : String) × Memᴰ (x, r.id) (map told w.db.outbox)
  pub reached : ReachedBroker w.db w.sent

module _ (broker : Broker) (intake : Intake) (incident : IncidentRequest) where
  abbrev analysis : IncidentAnalysisResponse
  analysis = analyze_incident intake.wide incident

  abbrev Reaching : {A : Type 0} → Dispatch A → Type 0
  Reaching m =
      Triple (λ w. ReachedBroker w.db w.sent) m (λ a w. ReachedBroker w.db w.sent)
        (λ e w. ReachedBroker w.db w.sent)

  both_rows-ReachedBroker :
      (valid : Bool) (event : IncidentCreatedEvent) (r : IncidentRecord) (w : OutboxWorld)
      → ReachedBroker w.db w.sent
      → Ends {E = Text} {A = IncidentCreatedEvent}
          (λ a w. ReachedBroker w.db w.sent)
          (λ e w. ReachedBroker w.db w.sent)
          (committed broker intake w (
            if valid
            then ok (
              event,
              add_event broker
                  (broker.current w.tick)
                  (event_row broker intake event)
                  (create r w.db),
            )
            else err intake.invalid_event))
  unfolding add_event
  both_rows-ReachedBroker true event r w h = λ q m p. elim (Memᴰ.append_cases w.db.outbox m) [
    | inl k ↦ h q k p
    | inr k ↦ elim (Memᴰ.cases_cons k) [
      | inl e ↦ absurd (true≢false (sym p ∙ ap is_published e))
      | inr j ↦ absurd (Memᴰ.not-nil j)
    ]
  ]
  both_rows-ReachedBroker false event r w h = h

  persist_incident-Reaching : Reaching (persist_incident broker intake incident analysis)
  unfolding persist_incident both_rows
  persist_incident-Reaching = record { at = λ w h. go (broker.outbox_fault w.tick) w h }
    where
      go :
          (fault : Option Text) (w : OutboxWorld)
          → ReachedBroker w.db w.sent
          → Ends {E = Text} {A = IncidentCreatedEvent}
              (λ a w. ReachedBroker w.db w.sent)
              (λ e w. ReachedBroker w.db w.sent)
              (committed broker intake w (elim fault [
                | some message ↦ err message
                | none ↦
                    both_rows broker intake
                      (new_row broker intake incident analysis w.tick)
                      w.tick
                      w.db
              ]))
      go (some message) w h = h
      go none w h = both_rows-ReachedBroker _ _ _ w h

  dispatch_event-Reaching : (x : String) → Reaching (dispatch_event broker x)
  dispatch_event-Reaching x = record {
    at = λ w h.
        Ends-mono
          (λ a v (s : Sound broker [] (published_count w.db + one_for broker [] a) v.db v.sent).
            s.reached)
          (λ e v (s : (n : ℕ) × Sound broker [] n v.db v.sent). s.1.reached) _
          ((dispatch_event-Outcomes broker [] (published_count w.db) x).at w
            (record { reached = h; total = refl; stay = λ r m. absurd (Memᴰ.not-nil m) }));
  }

  analyze_and_persist_incident-Reaching :
      Reaching (analyze_and_persist_incident broker intake incident)
  unfolding analyze_and_persist_incident
  analyze_and_persist_incident-Reaching = Triple-bind _ persist_incident-Reaching λ event.
      Triple-bind (λ outcome w. ReachedBroker w.db w.sent)
        (Triple-mono (λ v s. s) (λ o v. Attempted-same (λ w. ReachedBroker w.db w.sent) o v)
          (λ e v s. s) (Triple-attempt (dispatch_event-Reaching event.event_id)))
        λ outcome. Triple-pure _ (λ v s. s)

  -- The incidents after the call have events.
  both-event_for :
      (w w' : OutboxWorld)
      → Announced w
      → Both broker intake incident w w'
      → (r : IncidentRecord) → Memᴰ r w'.db.incidents
      → (x : String) × Memᴰ (x, r.id) (map told w'.db.outbox)
  both-event_for w w' a (e, k) r m = elim (Memᴰ.append_cases w.db.incidents (rw e at m)) [
    | inl old ↦ let (x, j) = a.event_for r old in (x, rw k (Memᴰ.append_left _ j))
    | inr new ↦ elim (Memᴰ.cases_cons new) [
      | inl q ↦ (
        intake.new_event_id w.tick,
        rw k (
            Memᴰ.append_right (map told w.db.outbox)
              (Memᴰ.head (ap (λ z. (intake.new_event_id w.tick, z.id)) q))),
      )
      | inr j ↦ absurd (Memᴰ.not-nil j)
    ]
  ]

  ended-Announced :
      (w : OutboxWorld)
      → Announced w
      → (o : Result Text IncidentAnalysisResponse × OutboxWorld)
      → Recorded broker intake incident w o
      → Ends (λ a w. ReachedBroker w.db w.sent) (λ e w. ReachedBroker w.db w.sent) o
      → Announced o.1
  ended-Announced w a (ok response, w') h k = record {
    event_for = both-event_for w w' a h.1;
    reached = k;
  }
  ended-Announced w a (err e, w') h k = record { event_for = rw h.0 a.event_for; reached = k }

  -- If each incident has an event in the outbox, and each event that is marked as published has
  -- reached the broker, then this holds after an incident was taken in, however that ends.
  pub analyze_and_persist_incident-Announced :
      (w : OutboxWorld)
      → Announced w
      → Announced (analyze_and_persist_incident broker intake incident w).1
  analyze_and_persist_incident-Announced w a =
      ended-Announced w a _ (analyze_and_persist_incident_lem broker intake incident w)
        (analyze_and_persist_incident-Reaching.at w a.reached)
