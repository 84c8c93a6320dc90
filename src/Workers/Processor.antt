-- ===== src/Workers/Processor.antt =====
-- `IncidentEventProcessor` of workers/processor.py: one marker for each event that was handled.
use ai_support_engineering_p.Agent.Claim.{Outcome}
use ai_support_engineering_p.Agent.Env.{Env, M, World, transaction}
use ai_support_engineering_p.Agent.Failure.{Failure, retryable_resolution}
use ai_support_engineering_p.Agent.Models.{IncidentCreatedEvent}
use ai_support_engineering_p.Agent.Tables.{by_id}
use ai_support_engineering_p.Common.{
  Bool, Option, String, Text, [], any, codes, find, if◌then◌else◌, is_some, none, some, ℕ, ◌++◌,
  ◌∷◌,
}
use ai_support_engineering_p.Common.Exec.{Exec, Result, err, ok, pure, raise, ◌>>=◌}
use ai_support_engineering_p.Db.{Db, IncidentClassification, ProcessedEventRecord, Severity}
use ai_support_engineering_p.Db.Json.{Value, end, field, integer, object, text, ℤ}
use package.text.Mathlib.Text.{◌==◌ as str_eq}

pub data ProcessingOutcome : Type 0 where
  processed failed duplicate : ProcessingOutcome

-- `RetryableProcessingError` for a missing incident or a deferred resolution, and any other
-- exception as it is.
pub data ProcessError : Type 0 where
  not_visible : ℕ → ProcessError
  deferred_processing : Text → ProcessError
  raised : Failure → ProcessError

abbrev pub Process : Type 0 → Type 0
Process A = Exec World ProcessError A

-- The protocol `ResolutionWorkflow`.
pub record ResolutionWorkflow : Type 0 where
  pub phase : ℕ
  pub resolve_event : IncidentCreatedEvent → M Outcome

abbrev pub classification_value : IncidentClassification → Text
classification_value IncidentClassification.authentication_error = codes "authentication_error"
classification_value IncidentClassification.database_connection_error =
    codes "database_connection_error"
classification_value IncidentClassification.timeout_error = codes "timeout_error"
classification_value IncidentClassification.unknown_error = codes "unknown_error"

abbrev pub severity_value : Severity → Text
severity_value Severity.low = codes "low"
severity_value Severity.medium = codes "medium"
severity_value Severity.high = codes "high"
severity_value Severity.critical = codes "critical"

abbrev pub outcome_value : Outcome → Text
outcome_value Outcome.completed = codes "completed"
outcome_value Outcome.failed = codes "failed"

abbrev pub routing_key : IncidentCreatedEvent → Text
routing_key event =
    classification_value event.classification ++ (codes ":" ++ severity_value event.severity)

abbrev pub processing_result : ℕ → Text → IncidentCreatedEvent → Value
processing_result phase status event = object (
    field (codes "phase") (integer (ℤ.pos phase)) (
      field (codes "status") (text status)
        (field (codes "routing_key") (text (routing_key event)) end)))

abbrev pub processing_outcome : Outcome → ProcessingOutcome
processing_outcome Outcome.completed = ProcessingOutcome.processed
processing_outcome Outcome.failed = ProcessingOutcome.failed

abbrev pub marks : String → ProcessedEventRecord → Bool
marks x r = str_eq r.event_id x

-- What the first session finds.
pub data Lookup : Type 0 where
  seen unknown ready : Lookup

abbrev pub look_up : IncidentCreatedEvent → Db → Lookup
look_up event db =
    if any (marks event.event_id) db.processed
    then Lookup.seen
    else if is_some (find (by_id event.incident_id) db.incidents)
    then Lookup.ready
    else Lookup.unknown

-- An exception of a session or of the workflow, as `process` passes it on.
abbrev pub as_process : Env → Failure → ProcessError
as_process env (Failure.retryable_resolution d) =
    deferred_processing (env.str (retryable_resolution d))
as_process env e = raised e

abbrev pub through :
    {A : Type 0}
    → (Failure → ProcessError)
    → Result Failure A × World
    → Result ProcessError A × World
through f (ok a, w) = (ok a, w)
through f (err e, w) = (err (f e), w)

-- `raced n` is the result that another worker has committed for the same event since the check, in
-- which case the insertion violates the primary key.
module _ (env : Env) (consumer_group : String) (raced : ℕ → Option Value) where
  abbrev pub session : {A : Type 0} → (Db → Result Failure (A × Db)) → Process A
  session body w = through raised (transaction env body w)

  unfoldable pub marker : IncidentCreatedEvent → Value → ProcessedEventRecord
  marker event result = record {
    event_id = event.event_id;
    event_type = event.event_type;
    event_version = 1;
    incident_id = event.incident_id;
    consumer_group = consumer_group;
    processing_result = result;
  }

  abbrev pub with_marker : IncidentCreatedEvent → Value → Db → Db
  with_marker event result db = record db { processed = db.processed ++ marker event result ∷ [] }

  -- The session that stores the marker. Its `IntegrityError` is that of the primary key, where
  -- `other` was committed first; the foreign key holds, as incidents are not deleted.
  unfoldable pub mark_session :
      IncidentCreatedEvent
      → Value
      → ProcessingOutcome
      → Option Value
      → Db
      → Result Failure (ProcessingOutcome × Db)
  mark_session event result outcome other db =
      if any (marks event.event_id) db.processed
      then ok (ProcessingOutcome.duplicate, db)
      else elim other [
        | some theirs ↦ ok (ProcessingOutcome.duplicate, with_marker event theirs db)
        | none ↦ ok (outcome, with_marker event result db)
      ]

  unfoldable pub mark : IncidentCreatedEvent → Value → ProcessingOutcome → Process ProcessingOutcome
  mark event result outcome w = session (mark_session event result outcome (raced w.tick)) w

  abbrev pub resolved : ResolutionWorkflow → IncidentCreatedEvent → Process Outcome
  resolved workflow event w = through (as_process env) (workflow.resolve_event event w)

  unfoldable pub work : Option ResolutionWorkflow → IncidentCreatedEvent → Process ProcessingOutcome
  work none event =
      mark event (processing_result 3 (codes "prepared_for_future_ai_processing") event)
        ProcessingOutcome.processed
  work (some workflow) event = do
    outcome ← resolved workflow event
    mark event (processing_result workflow.phase (outcome_value outcome) event)
        (processing_outcome outcome)

  abbrev pub found : IncidentCreatedEvent → Db → Result Failure (Lookup × Db)
  found event db = ok (look_up event db, db)

  abbrev pub after_lookup :
      Option ResolutionWorkflow → IncidentCreatedEvent → Lookup → Process ProcessingOutcome
  after_lookup workflow event Lookup.seen = pure ProcessingOutcome.duplicate
  after_lookup workflow event Lookup.unknown = raise (not_visible event.incident_id)
  after_lookup workflow event Lookup.ready = work workflow event

  unfoldable pub process :
      Option ResolutionWorkflow → IncidentCreatedEvent → Process ProcessingOutcome
  process workflow event = do look ← session (found event); after_lookup workflow event look
