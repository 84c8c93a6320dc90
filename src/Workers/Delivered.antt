-- ===== src/Workers/Delivered.antt =====
-- An event that was handled has a marker.
use ai_support_engineering_p.Agent.Env.{Env, World, transaction}
use ai_support_engineering_p.Agent.Env.Rules.{Committed, Triple-transaction}
use ai_support_engineering_p.Agent.Failure.{Failure}
use ai_support_engineering_p.Agent.Models.{IncidentCreatedEvent}
use ai_support_engineering_p.Agent.Tables.{by_id}
use ai_support_engineering_p.Common.{
  Bool, Bool-cases, Option, Option-cases, String, any, any-snoc, arith, false, find, if◌then◌else◌,
  inl, inr, is_some, none, refl, some, subst, suc, sym, true, zero, ℕ, ◌+◌, ◌||◌, ◌≡◌,
}
use ai_support_engineering_p.Common.Exec.{Result, err, ok, ◌>>=◌}
use ai_support_engineering_p.Common.Exec.Triple.{
  Ends, Triple, Triple-any, Triple-bind, Triple-mono, Triple-pure, Triple-raise,
}
use ai_support_engineering_p.Db.{Db}
use ai_support_engineering_p.Db.Json.{Value}
use ai_support_engineering_p.Workers.Processor.{
  Lookup, Process, ProcessingOutcome, ResolutionWorkflow, after_lookup, found, look_up, mark,
  mark_session, marker, marks, process, raised, session, through, with_marker, work,
}
use text.Mathlib.TextPositions.{eq_refl}

or_true : (b : Bool) → (b || true) ≡ true
or_true b = ground arith

unseen : (b : Bool) → (if b then Lookup.ready else Lookup.unknown) ≡ Lookup.seen → ⊥
unseen true h = cc
unseen false h = cc

module _ (env : Env) (group : String) (raced : ℕ → Option Value) where
  abbrev Marked : IncidentCreatedEvent → Db → Type 0
  Marked event db = any (marks event.event_id) db.processed ≡ true

  -- Where it returns, there is a marker.
  abbrev Marking : IncidentCreatedEvent → Process ProcessingOutcome → Type 0
  Marking event m = Triple (λ w. Unit) m (λ a w. Marked event w.db) (λ e w. Unit)

  with_marker-Marked :
      (event : IncidentCreatedEvent) (result : Value) (db : Db)
      → Marked event (with_marker env group raced event result db)
  unfolding marker
  with_marker-Marked event result db =
      rw
        (
          any-snoc (marks event.event_id) db.processed (marker env group raced event result),
          eq_refl event.event_id,
        )
        (or_true _)

  mark_session-Marked :
      (event : IncidentCreatedEvent) (result : Value) (outcome : ProcessingOutcome)
      (other : Option Value) (db : Db)
      → Committed (λ a. Marked event) (mark_session env group raced event result outcome other db)
  unfolding mark_session
  mark_session-Marked event result outcome other db =
      elim (Bool-cases (any (marks event.event_id) db.processed)) [
        | inl seen ↦ rw seen seen
        | inr fresh ↦ elim (Option-cases other) [
          | inl none_yet ↦ rw (fresh, none_yet) (with_marker-Marked event result db)
          | inr (theirs, e) ↦ rw (fresh, e) (with_marker-Marked event theirs db)
        ]
      ]

  through-Marked :
      (event : IncidentCreatedEvent) (o : Result Failure ProcessingOutcome × World)
      → Ends (λ a w. Marked event w.db) (λ e w. Unit) o
      → Ends (λ a w. Marked event w.db) (λ e w. Unit) (through raised o)
  through-Marked event (ok a, w) h = h
  through-Marked event (err e, w) h = tt

  mark-Marking :
      (event : IncidentCreatedEvent) (result : Value) (outcome : ProcessingOutcome)
      → Marking event (mark env group raced event result outcome)
  unfolding mark
  mark-Marking event result outcome = record {
    at = λ w h. through-Marked event _ (
        (Triple-transaction (λ db. Unit) (λ a. Marked event) (λ db. Unit) env _ (λ db q. tt)
            (λ db q. mark_session-Marked event result outcome (raced w.tick) db)).at
          w tt);
  }

  work-Marking :
      (workflow : Option ResolutionWorkflow) (event : IncidentCreatedEvent)
      → Marking event (work env group raced workflow event)
  unfolding work
  work-Marking none event = mark-Marking event _ _
  work-Marking (some workflow) event =
      Triple-bind (λ a w. Unit) (Triple-any (λ a w. tt) (λ e w. tt))
        λ outcome. mark-Marking event _ _

  seen-Marked :
      (event : IncidentCreatedEvent) (db : Db) → look_up event db ≡ Lookup.seen → Marked event db
  seen-Marked event db h = elim (Bool-cases (any (marks event.event_id) db.processed)) [
    | inl e ↦ e
    | inr e ↦ absurd (unseen (is_some (find (by_id event.incident_id) db.incidents)) (rw e at h))
  ]

  look_up-session :
      (event : IncidentCreatedEvent)
      → Triple
          (λ w. Unit)
          (session env group raced (found env group raced event))
          (λ look w. look ≡ look_up event w.db)
          (λ e w. Unit)
  look_up-session event = record {
    at = λ w h. through_looked event _ (
        (Triple-transaction (λ db. Unit) (λ look db. look ≡ look_up event db) (λ db. Unit) env
            (found env group raced event) (λ db q. tt) (λ db q. refl)).at
          w tt);
  }
    where
      through_looked :
          (event : IncidentCreatedEvent) (o : Result Failure Lookup × World)
          → Ends (λ look w. look ≡ look_up event w.db) (λ e w. Unit) o
          → Ends (λ look w. look ≡ look_up event w.db) (λ e w. Unit) (through raised o)
      through_looked event (ok a, w) h = h
      through_looked event (err e, w) h = tt

  after_lookup-Marking :
      (workflow : Option ResolutionWorkflow) (event : IncidentCreatedEvent) (look : Lookup)
      → Triple
          (λ w. look ≡ look_up event w.db)
          (after_lookup env group raced workflow event look)
          (λ a w. Marked event w.db)
          (λ e w. Unit)
  after_lookup-Marking workflow event Lookup.seen =
      Triple-pure _ (λ w h. seen-Marked event w.db (sym h))
  after_lookup-Marking workflow event Lookup.unknown = Triple-raise _ (λ w h. tt)
  after_lookup-Marking workflow event Lookup.ready =
      Triple-mono (λ w h. tt) (λ a w h. h) (λ e w h. tt) (work-Marking workflow event)

  process-Marking :
      (workflow : Option ResolutionWorkflow) (event : IncidentCreatedEvent)
      → Marking event (process env group raced workflow event)
  unfolding process
  process-Marking workflow event =
      Triple-bind (λ look w. look ≡ look_up event w.db) (look_up-session event)
        (after_lookup-Marking workflow event)

  -- Where processing returns, with whatever outcome, the event has a marker, so that the next
  -- delivery of it is a duplicate.
  pub process-Marked :
      (workflow : Option ResolutionWorkflow) (event : IncidentCreatedEvent) (w w' : World)
      (outcome : ProcessingOutcome)
      → process env group raced workflow event w ≡ (ok outcome, w')
      → any (marks event.event_id) w'.db.processed ≡ true
  process-Marked workflow event w w' outcome h =
      subst (Ends (λ a v. Marked event v.db) (λ e v. Unit)) h
        ((process-Marking workflow event).at w tt)

  -- The next deliveries of the event, by whichever worker, are answered with DUPLICATE: nothing is
  -- written, and what the workflow would do makes no difference.
  pub data Answered (event : IncidentCreatedEvent) : ℕ → World → Type 0 where
    stop : {w : World} → Answered event zero w
    again :
        {n : ℕ} {w w' : World}
        → ((other : Option ResolutionWorkflow)
            → process env group raced other event w ≡ (ok ProcessingOutcome.duplicate, w'))
        → w'.db ≡ w.db
        → Answered event n w'
        → Answered event (suc n) w

  module _ (no_fault : (n : ℕ) → env.db_fault n ≡ none) where
    marked-Answered :
        (event : IncidentCreatedEvent) (n : ℕ) (w : World)
        → any (marks event.event_id) w.db.processed ≡ true
        → Answered event n w
    unfolding process ◌>>=◌ transaction
    marked-Answered event zero w h = Answered.stop
    marked-Answered event (suc n) w h =
        Answered.again {w' = record w { tick = w.tick + 1 }} (λ other. rw (no_fault w.tick, h) refl)
          refl (marked-Answered event n (record w { tick = w.tick + 1 }) h)

    -- Where processing of an event has returned, with whatever outcome and whatever workflow, every
    -- one of any number of further deliveries is answered with DUPLICATE, with any workflow, and
    -- leaves the database as it is, if the database answers.
    pub process-again :
        (workflow : Option ResolutionWorkflow) (event : IncidentCreatedEvent) (w w' : World)
        (outcome : ProcessingOutcome)
        → process env group raced workflow event w ≡ (ok outcome, w')
        → (n : ℕ) → Answered event n w'
    process-again workflow event w w' outcome h n =
        marked-Answered event n w' (process-Marked workflow event w w' outcome h)
