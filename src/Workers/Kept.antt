-- ===== src/Workers/Kept.antt =====
-- What processing an event keeps of the database, method by method.
use ai_support_engineering_p.Agent.Env.{Env, World}
use ai_support_engineering_p.Agent.Env.Rules.{Committed, Triple-transaction}
use ai_support_engineering_p.Agent.Failure.{Failure}
use ai_support_engineering_p.Agent.Models.{IncidentCreatedEvent}
use ai_support_engineering_p.Common.{
  Bool-cases, Option, Option-cases, String, any, false, inl, inr, none, some, ℕ, ◌≡◌,
}
use ai_support_engineering_p.Common.Exec.{Result, err, ok}
use ai_support_engineering_p.Common.Exec.Triple.{
  Ends, Triple, Triple-bind, Triple-pure, Triple-raise,
}
use ai_support_engineering_p.Db.{Db}
use ai_support_engineering_p.Db.Json.{Value}
use ai_support_engineering_p.Workers.Processor.{
  Lookup, Process, ProcessError, ProcessingOutcome, ResolutionWorkflow, after_lookup, as_process,
  found, mark, mark_session, marks, process, raised, resolved, session, through, with_marker, work,
}

-- What a workflow must keep for the processor.
pub record Keeps (P : Db → Type 0) (workflow : ResolutionWorkflow) : Type 0 where
  pub keeps :
      (event : IncidentCreatedEvent)
      → Triple (λ w. P w.db) (workflow.resolve_event event) (λ a w. P w.db) (λ e w. P w.db)

abbrev pub Law : (Db → Type 0) → Option ResolutionWorkflow → Type 0
Law P none = Unit
Law P (some workflow) = Keeps P workflow

-- What a new marker for an event without one keeps, processing keeps.
module _ (P : Db → Type 0) (env : Env) (group : String) (raced : ℕ → Option Value)
    (added : (event : IncidentCreatedEvent) (result : Value) (db : Db)
      → any (marks event.event_id) db.processed ≡ false
      → P db
      → P (with_marker env group raced event result db)) where
  abbrev pub Kept : {A : Type 0} → Process A → Type 0
  Kept m = Triple (λ w. P w.db) m (λ a w. P w.db) (λ e w. P w.db)

  through-Ends :
      {A : Type 0} (f : Failure → ProcessError) (o : Result Failure A × World)
      → Ends (λ a w. P w.db) (λ e w. P w.db) o
      → Ends (λ a w. P w.db) (λ e w. P w.db) (through f o)
  through-Ends f (ok a, w) h = h
  through-Ends f (err e, w) h = h

  session-Kept :
      {A : Type 0} (body : Db → Result Failure (A × Db))
      → ((db : Db) → P db → Committed (λ a. P) (body db))
      → Kept (session env group raced body)
  session-Kept body h = record {
    at = λ w o.
        through-Ends raised _ ((Triple-transaction P (λ a. P) P env body (λ db q. q) h).at w o);
  }

  mark_session-Committed :
      (event : IncidentCreatedEvent) (result : Value) (outcome : ProcessingOutcome)
      (other : Option Value) (db : Db)
      → P db
      → Committed (λ a. P) (mark_session env group raced event result outcome other db)
  unfolding mark_session
  mark_session-Committed event result outcome other db h =
      elim (Bool-cases (any (marks event.event_id) db.processed)) [
        | inl seen ↦ rw seen h
        | inr fresh ↦ elim (Option-cases other) [
          | inl none_yet ↦ rw (fresh, none_yet) (added event result db fresh h)
          | inr (theirs, e) ↦ rw (fresh, e) (added event theirs db fresh h)
        ]
      ]

  mark-Kept :
      (event : IncidentCreatedEvent) (result : Value) (outcome : ProcessingOutcome)
      → Kept (mark env group raced event result outcome)
  unfolding mark
  mark-Kept event result outcome = record {
    at = λ w.
        (session-Kept (mark_session env group raced event result outcome (raced w.tick))
            (mark_session-Committed event result outcome (raced w.tick))).at
          w;
  }

  resolved-Kept :
      (workflow : ResolutionWorkflow) (event : IncidentCreatedEvent)
      → Keeps P workflow
      → Kept (resolved env group raced workflow event)
  resolved-Kept workflow event k = record {
    at = λ w h. through-Ends (as_process env) _ ((k.keeps event).at w h);
  }

  work-Kept :
      (workflow : Option ResolutionWorkflow) (event : IncidentCreatedEvent)
      → Law P workflow
      → Kept (work env group raced workflow event)
  unfolding work
  work-Kept none event k = mark-Kept event _ _
  work-Kept (some workflow) event k =
      Triple-bind (λ a w. P w.db) (resolved-Kept workflow event k) λ outcome. mark-Kept event _ _

  after_lookup-Kept :
      (workflow : Option ResolutionWorkflow) (event : IncidentCreatedEvent) (look : Lookup)
      → Law P workflow
      → Kept (after_lookup env group raced workflow event look)
  after_lookup-Kept workflow event Lookup.seen k = Triple-pure _ (λ w h. h)
  after_lookup-Kept workflow event Lookup.unknown k = Triple-raise _ (λ w h. h)
  after_lookup-Kept workflow event Lookup.ready k = work-Kept workflow event k

  process-Kept :
      (workflow : Option ResolutionWorkflow) (event : IncidentCreatedEvent)
      → Law P workflow
      → Kept (process env group raced workflow event)
  unfolding process
  process-Kept workflow event k =
      Triple-bind (λ a w. P w.db) (session-Kept (found env group raced event) (λ db h. h))
        λ look. after_lookup-Kept workflow event look k

  ends :
      {A : Type 0} (o : Result ProcessError A × World)
      → Ends (λ a w. P w.db) (λ e w. P w.db) o
      → P o.1.db
  ends (ok a, w) h = h
  ends (err e, w) h = h

  pub process_keeps :
      (workflow : Option ResolutionWorkflow) (event : IncidentCreatedEvent) (w : World)
      → Law P workflow
      → P w.db
      → P (process env group raced workflow event w).1.db
  process_keeps workflow event w k h = ends _ ((process-Kept workflow event k).at w h)
