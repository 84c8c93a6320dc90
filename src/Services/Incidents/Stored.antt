-- ===== src/Services/Incidents/Stored.antt =====
-- What taking in an incident stores, through the transaction and the publishing of its event.
use ai_support_engineering_p.Agent.Models.{IncidentCreatedEvent}
use ai_support_engineering_p.Common.{
  Bool, Bool-cases, List, Option, String, Text, [], false, if◌then◌else◌, inl, inr, map, modify,
  none, refl, some, subst, sym, true, ℕ, ◌++◌, ◌+◌, ◌∙◌, ◌∷◌, ◌≡◌, ◌⊎◌,
}
use ai_support_engineering_p.Common.Exec.{Result, err, ok}
use ai_support_engineering_p.Common.Exec.Triple.{
  Attempted-same, Ends, Triple, Triple-attempt, Triple-bind, Triple-mono, Triple-pure,
}
use ai_support_engineering_p.Db.{Db, IncidentRecord, OutboxEventRecord}
use ai_support_engineering_p.Events.Dispatcher.{
  Dispatch, defer_row, deliver, dispatch_event, dispatch_found, publish_row, query, send,
  settle_event, write_row,
}
use ai_support_engineering_p.Events.Outbox.{Broker, OutboxWorld, add_event, is_pending}
use ai_support_engineering_p.Services.Analyzer.{
  IncidentAnalysisResponse, IncidentRequest, analyze_incident,
}
use ai_support_engineering_p.Services.Incidents.{
  Intake, analyze_and_persist_incident, both_rows, committed, create, created_event, event_row,
  is_valid_event, new_row, persist_incident,
}

-- The event of a row, and the incident that it tells of.
abbrev pub told : OutboxEventRecord → String × ℕ
told r = (r.event_id, r.incident_id)

map-modify :
    {A B : Type 0} (g : A → B) (p : A → Bool) (f : A → A) (xs : List A)
    → ((x : A) → g (f x) ≡ g x)
    → map g (modify p f xs) ≡ map g xs
map-modify g p f [] h = refl
map-modify g p f (x ∷ xs) h = elim (Bool-cases (p x)) [
  | inl e ↦ rw (e, h x) refl
  | inr e ↦ rw (e, map-modify g p f xs h) refl
]

module _ (broker : Broker) (incidents : List IncidentRecord) (events : List (String × ℕ)) where
  -- What dispatching does not change.
  abbrev pub Same : OutboxWorld → Type 0
  Same w = (w.db.incidents ≡ incidents) × (map told w.db.outbox ≡ events)

  abbrev Keeping : {A : Type 0} → Dispatch A → Type 0
  Keeping m = Triple Same m (λ a. Same) (λ e. Same)

  query-Keeping :
      {A : Type 0} (f : OutboxWorld → A × Db)
      → ((w : OutboxWorld) → Same w → Same (record w { db = (f w).1 }))
      → Keeping (query broker f)
  query-Keeping f h = record {
    at = λ w s. ends (broker.outbox_fault w.tick) w (f w).0 (f w).1 s (h w s);
  }
    where
      ends :
          {A : Type 0} (fault : Option Text) (w : OutboxWorld) (a : A) (db : Db)
          → Same w
          → Same (record w { db = db })
          → Ends {E = Text} {A = A}
              (λ a. Same)
              (λ e. Same)
              (elim fault [
                | some message ↦ (err message, record w { tick = w.tick + 1 })
                | none ↦ (ok a, record w { db = db; tick = w.tick + 1 })
              ])
      ends none w a db s s' = s'
      ends (some message) w a db s s' = s

  write_row-Same :
      (x : String) (f : OutboxEventRecord → OutboxEventRecord) (w : OutboxWorld)
      → ((r : OutboxEventRecord) → told (f r) ≡ told r)
      → Same w
      → Same (record w { db = write_row broker x f w.db })
  write_row-Same x f w h s = (s.0, map-modify told (is_pending x) f w.db.outbox h ∙ s.1)

  settle_event-Keeping :
      (x : String) (answer : Option Text) → Keeping (settle_event broker x answer)
  unfolding settle_event defer_row publish_row
  settle_event-Keeping x none =
      Triple-bind (λ now. Same) (record { at = λ w s. s })
        λ now. query-Keeping _ (λ w s. write_row-Same x (publish_row broker now) w (λ r. refl) s)
  settle_event-Keeping x (some message) =
      Triple-bind (λ now. Same) (record { at = λ w s. s })
        λ now.
          query-Keeping _ (λ w s. write_row-Same x (defer_row broker message now) w (λ r. refl) s)

  deliver-Same :
      (r : OutboxEventRecord) (answer : Option Text) (anyway : Bool) (w : OutboxWorld)
      → Same w
      → Same (deliver broker r answer anyway w)
  deliver-Same r none anyway w s = s
  deliver-Same r (some message) anyway w s = s

  dispatch_found-Keeping :
      (x : String) (row : Option OutboxEventRecord) → Keeping (dispatch_found broker x row)
  unfolding send
  dispatch_found-Keeping x none = Triple-pure _ (λ w s. s)
  dispatch_found-Keeping x (some r) =
      Triple-bind (λ answer. Same)
        (record {
          at = λ w s.
              deliver-Same r (broker.publish w.tick r.payload r.topic)
                (broker.arrived_anyway w.tick) w s;
        })
        (settle_event-Keeping x)

  dispatch_event-Keeping : (x : String) → Keeping (dispatch_event broker x)
  unfolding dispatch_event
  dispatch_event-Keeping x =
      Triple-bind (λ found. Same) (query-Keeping _ (λ w s. s)) (dispatch_found-Keeping x)

map-snoc :
    {A B : Type 0} (g : A → B) (xs : List A) (x : A) → map g (xs ++ x ∷ []) ≡ map g xs ++ g x ∷ []
map-snoc g [] x = refl
map-snoc g (y ∷ xs) x = rw (map-snoc g xs x) refl

module _ (broker : Broker) (intake : Intake) (incident : IncidentRequest) (w : OutboxWorld) where
  abbrev pub stored_row : IncidentRecord
  stored_row = new_row broker intake incident (analyze_incident intake.wide incident) w.tick

  -- The tables with the new rows.
  abbrev pub Both : OutboxWorld → Type 0
  Both =
      Same broker (w.db.incidents ++ stored_row ∷ [])
        (map told w.db.outbox ++ (intake.new_event_id w.tick, stored_row.id) ∷ [])

  -- The database raised in the transaction, or the event is not valid.
  abbrev pub Refused : Text → Type 0
  Refused e =
      (broker.outbox_fault w.tick ≡ some e)
      ⊎ (is_valid_event broker intake (created_event broker intake w.tick stored_row) ≡ false)

  abbrev pub Neither : Text → OutboxWorld → Type 0
  Neither e w' = (w'.db ≡ w.db) × (w'.sent ≡ w.sent) × Refused e

  abbrev Committed : Result Text (IncidentCreatedEvent × Db) → Type 0
  Committed o =
      Ends {E = Text} {A = IncidentCreatedEvent} (λ event. Both) Neither
        (committed broker intake w o)

  both_rows-Both :
      (valid : Bool) (event : IncidentCreatedEvent)
      → event.event_id ≡ intake.new_event_id w.tick
      → event.incident_id ≡ stored_row.id
      → is_valid_event broker intake (created_event broker intake w.tick stored_row) ≡ valid
      → Committed (
          if valid
          then ok (
            event,
            add_event broker
                (broker.current w.tick)
                (event_row broker intake event)
                (create stored_row w.db),
          )
          else err intake.invalid_event)
  unfolding add_event
  both_rows-Both true event h k v = (refl, map-snoc told w.db.outbox _ ∙ rw (h, k) refl)
  both_rows-Both false event h k v = (refl, refl, inr v)

  persist_incident-Both :
      Ends
        (λ event. Both)
        Neither
        (persist_incident broker intake incident (analyze_incident intake.wide incident) w)
  unfolding persist_incident both_rows
  persist_incident-Both = go (broker.outbox_fault w.tick) refl
    where
      go :
          (fault : Option Text)
          → broker.outbox_fault w.tick ≡ fault
          → Committed (elim fault [
            | some message ↦ err message
            | none ↦ both_rows broker intake stored_row w.tick w.db
          ])
      go (some message) e = (refl, refl, inl e)
      go none e = both_rows-Both _ (created_event broker intake w.tick stored_row) refl refl refl

  persisted :
      Triple
        (λ v. v ≡ w)
        (persist_incident broker intake incident (analyze_incident intake.wide incident))
        (λ event. Both)
        Neither
  persisted = record {
    at = λ v e.
        subst
          (λ u.
            Ends (λ event. Both) Neither
              (persist_incident broker intake incident (analyze_incident intake.wide incident) u))
          (sym e) persist_incident-Both;
  }

  -- What `analyze_and_persist_incident` promises.
  abbrev pub Recorded : Result Text IncidentAnalysisResponse × OutboxWorld → Type 0
  Recorded o =
      Ends (λ response w'. (response ≡ analyze_incident intake.wide incident) × Both w') Neither o

  -- Where this returns, it returns the analysis, and has added the incident's row and the row of one
  -- event for it, however the publishing of the event ends. It raises only if the database raises in
  -- the transaction or the event is not valid, and then the database and the broker's messages are
  -- as before.
  pub analyze_and_persist_incident_lem :
      Recorded (analyze_and_persist_incident broker intake incident w)
  unfolding analyze_and_persist_incident
  analyze_and_persist_incident_lem =
      (Triple-bind (λ event. Both) persisted
          λ event.
            Triple-bind (λ outcome. Both)
              (Triple-mono (λ v s. s) (λ o v. Attempted-same Both o v) (λ e v s. s)
                (Triple-attempt {R = Neither} (dispatch_event-Keeping broker _ _ event.event_id)))
              λ outcome. Triple-pure _ (λ v s. (refl, s))).at
        w refl
