-- ===== src/Ai/Workflow.antt =====
-- `IncidentResolutionWorkflow` of ai/workflow.py.
pub mod Stored
pub mod Evidenced
pub mod Answered
pub mod Completing
use ai_support_engineering_p.Agent.Claim.{Outcome, new_resolution}
use ai_support_engineering_p.Agent.Env.{Env, M, ask, transaction}
use ai_support_engineering_p.Agent.Failure.{
  Failure, deferred, incident_not_visible, retryable_resolution, state_disappeared,
}
use ai_support_engineering_p.Agent.Models.{IncidentCreatedEvent}
use ai_support_engineering_p.Agent.Tables.{by_id, find_resolution, set_resolution}
use ai_support_engineering_p.Ai.Resolution.{
  Fault, GeneratedResolution, Generation, Handling, handling, is_completed, is_ended, is_processing,
  validate_citations,
}
use ai_support_engineering_p.Common.{
  Bool, List, Option, [], codes, false, find, if◌then◌else◌, is_empty, leb, ltb, map, none, not,
  some, take, true, ℕ, ◌&&◌, ◌++◌, ◌+◌, ◌==◌, ◌∷◌,
}
use ai_support_engineering_p.Common.Exec.{Result, err, ok, pure, raise, ◌>>=◌}
use ai_support_engineering_p.Db.{AiResolutionRecord, AiResolutionStatus, Db, IncidentRecord}
use ai_support_engineering_p.Knowledge.Retrieval.{RetrievedChunk}
use ai_support_engineering_p.Workers.Processor.{ResolutionWorkflow}
use text.Mathlib.Text.{◌==◌ as str_eq}

module _ (env : Env) (generation : Generation) (event : IncidentCreatedEvent) where
  abbrev pub first_attempt : ℕ → ℕ → AiResolutionRecord
  first_attempt row now = record (new_resolution env event row now) {
    prompt_name = none;
    prompt_version = none;
  }

  abbrev pub next_attempt : ℕ → AiResolutionRecord → AiResolutionRecord
  next_attempt now r = record r {
    event_id = event.event_id;
    status = AiResolutionStatus.processing;
    attempt_count = r.attempt_count + 1;
    processing_started_at = some now;
    updated_at = now;
    error_message = none;
  }

  -- `now - started < self.stale_after`, where there is a start.
  abbrev pub is_fresh : ℕ → Option ℕ → Bool
  is_fresh now none = false
  is_fresh now (some started) = ltb now (started + generation.stale_after)

  abbrev pub held_by_other : ℕ → AiResolutionRecord → Bool
  held_by_other now r =
      is_processing r.status
      && (not (str_eq r.event_id event.event_id) && is_fresh now r.processing_started_at)

  -- The incident and the attempt's number, which is 0 where the resolution has ended.
  unfoldable pub claim_row :
      ℕ
      → ℕ
      → IncidentRecord
      → Option AiResolutionRecord
      → Db
      → Result Failure ((IncidentRecord × ℕ) × Db)
  claim_row row now incident none db =
      ok ((incident, 1), record db { resolutions = db.resolutions ++ first_attempt row now ∷ [] })
  claim_row row now incident (some r) db =
      if is_ended r.status
      then ok ((incident, 0), db)
      else if held_by_other now r
      then err (
          retryable_resolution
            (deferred (codes "Another event is currently resolving this incident")))
      else ok
          ((incident, r.attempt_count + 1), set_resolution event.incident_id (next_attempt now) db)

  unfoldable pub claim_attempt : ℕ → ℕ → Db → Result Failure ((IncidentRecord × ℕ) × Db)
  claim_attempt row now db = elim (find (by_id event.incident_id) db.incidents) [
    | none ↦ err (retryable_resolution (incident_not_visible event.incident_id))
    | some incident ↦ claim_row row now incident (find_resolution event.incident_id db) db
  ]

  -- `_claim`
  unfoldable pub claim_incident : M (IncidentRecord × ℕ)
  claim_incident = do
    now ← ask env.now
    row ← ask env.next_id
    transaction env (claim_attempt row now)

  abbrev pub ended_outcome : Option AiResolutionRecord → Outcome
  ended_outcome none = Outcome.failed
  ended_outcome (some r) = if is_completed r.status then Outcome.completed else Outcome.failed

  unfoldable pub report : M Outcome
  report = transaction env (λ db. ok (ended_outcome (find_resolution event.incident_id db), db))

  abbrev pub checked :
      Result Failure GeneratedResolution → List RetrievedChunk → Result Fault GeneratedResolution
  checked (err e) context = err (Fault.failed_call e)
  checked (ok resolution) context = elim (validate_citations resolution.cited_sources context) [
    | none ↦ ok resolution
    | some fault ↦ err fault
  ]

  abbrev pub Gathered : Type 0
  Gathered = List RetrievedChunk × Result Fault GeneratedResolution

  abbrev pub with_context : IncidentRecord → Result Failure (List RetrievedChunk) → M Gathered
  with_context incident (err e) = pure ([], err (Fault.failed_call e))
  with_context incident (ok []) = pure ([], err Fault.no_context)
  with_context incident (ok (item ∷ items)) = do
    response ←
        ask
          (λ n. generation.generate n (generation.build_resolution_prompt incident (item ∷ items)))
    pure (item ∷ items, checked response (item ∷ items))

  -- The body of the `try`, with the context that the handlers see.
  unfoldable pub gather : IncidentRecord → M Gathered
  gather incident = do
    retrieved ← ask (λ n. generation.retrieve n incident)
    with_context incident retrieved

  abbrev pub completed_row :
      ℕ → List RetrievedChunk → GeneratedResolution → AiResolutionRecord → AiResolutionRecord
  completed_row now context resolution r = record r {
    status = AiResolutionStatus.completed;
    summary = some resolution.summary;
    root_cause = some resolution.root_cause;
    recommended_actions = some resolution.recommended_actions;
    confidence = some resolution.confidence;
    cited_sources = some resolution.cited_sources;
    retrieved_context = some (map generation.dump_chunk context);
    error_message = none;
    completed_at = some now;
    updated_at = now;
  }

  -- A session that writes the incident's resolution.
  abbrev pub write_resolution :
      {A : Type 0} → A → (AiResolutionRecord → AiResolutionRecord) → Db → Result Failure (A × Db)
  write_resolution a f db = elim (find_resolution event.incident_id db) [
    | none ↦ err (retryable_resolution state_disappeared)
    | some r ↦ ok (a, set_resolution event.incident_id f db)
  ]

  unfoldable pub store_resolution : List RetrievedChunk → GeneratedResolution → M Outcome
  store_resolution context resolution = do
    now ← ask env.now
    transaction env (write_resolution Outcome.completed (completed_row now context resolution))

  abbrev pub failed_row :
      ℕ → Bool → Fault → List RetrievedChunk → AiResolutionRecord → AiResolutionRecord
  failed_row now terminal fault context r = record r {
    status = if terminal then AiResolutionStatus.failed else AiResolutionStatus.retryable;
    error_message = some (take 4000 (generation.describe fault));
    retrieved_context =
        if is_empty context then r.retrieved_context else some (map generation.dump_chunk context);
    updated_at = now;
  }

  abbrev pub end_attempt : Bool → Fault → M Outcome
  end_attempt true fault = pure Outcome.failed
  end_attempt false fault = raise (retryable_resolution (deferred (generation.describe fault)))

  -- `_record_failure`
  unfoldable pub record_fault : ℕ → List RetrievedChunk → Fault → Bool → M Outcome
  record_fault attempt context fault can_be_terminal =
      let terminal = can_be_terminal && leb generation.max_attempts attempt in
      do
        now ← ask env.now
        done ← transaction env (write_resolution tt (failed_row now terminal fault context))
        end_attempt terminal fault

  abbrev pub handle_fault : ℕ → List RetrievedChunk → Fault → Handling → M Outcome
  handle_fault attempt context fault Handling.retry_only = record_fault attempt context fault false
  handle_fault attempt context fault Handling.may_end = record_fault attempt context fault true
  handle_fault attempt context fault (Handling.passed_on e) = raise e

  abbrev pub settle_attempt : ℕ → Gathered → M Outcome
  settle_attempt attempt (context, ok resolution) = store_resolution context resolution
  settle_attempt attempt (context, err fault) = handle_fault attempt context fault (handling fault)

  abbrev pub attempt_resolution : IncidentRecord → ℕ → M Outcome
  attempt_resolution incident attempt = do
    gathered ← gather incident
    settle_attempt attempt gathered

  -- `resolve`
  unfoldable pub resolve_grounded : M Outcome
  resolve_grounded = do
    claimed ← claim_incident
    if claimed.1 == 0 then report else attempt_resolution claimed.0 claimed.1

-- The workflow as the event processor sees it.
abbrev pub grounded_workflow : Env → Generation → ResolutionWorkflow
grounded_workflow env generation = record {
  phase = 4;
  resolve_event = resolve_grounded env generation;
}
