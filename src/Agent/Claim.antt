-- ===== src/Agent/Claim.antt =====
-- `_claim_impl` of agent/workflow.py: start an execution, resume it, or report its end.
use ai_support_engineering_p.Common.{
  ℕ, ◌+◌, Bool, Option, none, some, [], ◌∷◌, ◌++◌, String, codes, find, modify, any, ◌||◌,
  if◌then◌else◌,
}
use text.Mathlib.Text.{◌==◌ as str_eq}
use ai_support_engineering_p.Common.Exec.{Result, ok, err, ◌>>=◌}
use ai_support_engineering_p.Db.{
  Db, AgentStatus, AiResolutionStatus, AgentExecutionRecord, AiResolutionRecord,
}
use ai_support_engineering_p.Agent.Models.{IncidentCreatedEvent}
use ai_support_engineering_p.Agent.Failure.{
  Failure, sqlalchemy, retryable_resolution, incident_not_visible,
}
use ai_support_engineering_p.Agent.Env.{Env, M, ask, transaction}
use ai_support_engineering_p.Agent.Tables.{by_id, by_incident, set_resolution, find_resolution}

-- `ResolutionWorkflowOutcome` of ai/workflow.py.
pub data Outcome : Type 0 where
  completed failed : Outcome

-- What a claim finds in the status of an existing execution.
unfoldable pub terminal_outcome : AgentStatus → Option Outcome
terminal_outcome AgentStatus.awaiting_review = some Outcome.completed
terminal_outcome AgentStatus.approved = some Outcome.completed
terminal_outcome AgentStatus.rejected = some Outcome.completed
terminal_outcome AgentStatus.completed = some Outcome.completed
terminal_outcome AgentStatus.failed = some Outcome.failed
terminal_outcome AgentStatus.cancelled = some Outcome.failed
terminal_outcome AgentStatus.pending = none
terminal_outcome AgentStatus.running = none
terminal_outcome AgentStatus.waiting_for_tool = none
terminal_outcome AgentStatus.retryable = none

module _ (env : Env) (event : IncidentCreatedEvent) where
  unfoldable pub new_execution : String → ℕ → ℕ → AgentExecutionRecord
  new_execution x row now = record {
    id = row;
    execution_id = x;
    incident_id = event.incident_id;
    event_id = event.event_id;
    status = AgentStatus.running;
    provider = env.provider_name;
    model = env.model_name;
    planner_prompt_name = env.planner_prompt.0;
    planner_prompt_version = env.planner_prompt.1;
    resolver_prompt_name = env.resolver_prompt.0;
    resolver_prompt_version = env.resolver_prompt.1;
    step_count = 0;
    tool_call_count = 0;
    model_call_count = 0;
    retry_count = 0;
    retrieved_chunk_count = 0;
    total_duration_ms = none;
    provider_duration_ms = 0;
    retrieval_duration_ms = 0;
    tool_duration_ms = 0;
    approximate_input_chars = 0;
    approximate_output_chars = 0;
    provider_usage = none;
    error_type = none;
    error_message_safe = none;
    started_at = some now;
    completed_at = none;
    created_at = now;
    updated_at = now;
  }

  unfoldable pub resume_execution : ℕ → AgentExecutionRecord → AgentExecutionRecord
  resume_execution now r = record r {
    status = AgentStatus.running;
    retry_count = r.retry_count + 1;
    error_type = none;
    error_message_safe = none;
    updated_at = now;
  }

  unfoldable pub new_resolution : ℕ → ℕ → AiResolutionRecord
  new_resolution row now = record {
    id = row;
    incident_id = event.incident_id;
    event_id = event.event_id;
    status = AiResolutionStatus.processing;
    attempt_count = 1;
    summary = none;
    root_cause = none;
    recommended_actions = none;
    confidence = none;
    cited_sources = none;
    evidence_summary = none;
    tools_used = none;
    limitations = none;
    escalation_required = none;
    human_review_recommended = none;
    retrieved_context = none;
    llm_provider = some env.provider_name;
    llm_model = some env.model_name;
    embedding_provider = some env.embedding_provider_name;
    embedding_model = some env.embedding_model_name;
    prompt_name = some env.resolver_prompt.0;
    prompt_version = some env.resolver_prompt.1;
    error_message = none;
    processing_started_at = some now;
    completed_at = none;
    created_at = now;
    updated_at = now;
  }

  unfoldable pub resume_resolution : ℕ → AiResolutionRecord → AiResolutionRecord
  resume_resolution now r = record r {
    status = AiResolutionStatus.processing;
    attempt_count = r.attempt_count + 1;
    processing_started_at = some now;
    updated_at = now;
    error_message = none;
  }

  -- The second half: create or resume the resolution of the incident.
  unfoldable pub claim_resolution : ℕ → ℕ → Db → Db
  claim_resolution row now db = elim (find_resolution event.incident_id db) [
    | none ↦ record db { resolutions = db.resolutions ++ new_resolution row now ∷ [] }
    | some r ↦ set_resolution event.incident_id (resume_resolution now) db
  ]

  -- The unique columns of `agent_executions`, besides the incident that was just looked up.
  abbrev pub clashes : String → AgentExecutionRecord → Bool
  clashes x r = str_eq r.event_id event.event_id || str_eq r.execution_id x

  unfoldable pub claim_execution :
      String
      → ℕ
      → ℕ
      → Option AgentExecutionRecord
      → Db
      → Result Failure ((String × Option Outcome) × Db)
  claim_execution x row now none db =
      if any (clashes x) db.executions
      then err (sqlalchemy (codes "IntegrityError: agent_executions"))
      else ok (
        (x, none),
        claim_resolution row now
            (record db { executions = db.executions ++ new_execution x row now ∷ [] }),
      )
  claim_execution x row now (some r) db = elim (terminal_outcome r.status) [
    | some outcome ↦ ok ((r.execution_id, some outcome), db)
    | none ↦ ok (
      (r.execution_id, none),
      claim_resolution row now (record db {
        executions = modify (by_incident event.incident_id) (resume_execution now) db.executions;
      }),
    )
  ]

  unfoldable pub claim_session :
      String → ℕ → ℕ → Db → Result Failure ((String × Option Outcome) × Db)
  claim_session x row now db = elim (find (by_id event.incident_id) db.incidents) [
    | none ↦ err (retryable_resolution (incident_not_visible event.incident_id))
    | some incident ↦
        claim_execution x row now (find (by_incident event.incident_id) db.executions) db
  ]

  unfoldable pub claim : M (String × Option Outcome)
  claim = do
    now ← ask env.now
    x ← ask env.uuid4
    row ← ask env.next_id
    transaction env (claim_session x row now)
