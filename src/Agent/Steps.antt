-- ===== src/Agent/Steps.antt =====
-- The audit steps of agent/workflow.py: `_persist_tool_step_impl`, `_persist_rejected_step`,
-- `_restore_results` and the accounting of `_model_call`.
use ai_support_engineering_p.Agent.Env.{Env, M, ask, transaction}
use ai_support_engineering_p.Agent.Evidence.{is_runbook, is_succeeded}
use ai_support_engineering_p.Agent.Failure.{Failure, model_validation, sqlalchemy}
use ai_support_engineering_p.Agent.Models.{PlannerDecision, ToolRequest, ToolResult}
use ai_support_engineering_p.Agent.Sanitization.{sanitize_value}
use ai_support_engineering_p.Agent.Tables.{add_step, find_execution, set_execution}
use ai_support_engineering_p.Common.{
  Bool, List, Option, String, Text, [], codes, false, fromkeys, if◌then◌else◌, keep, length, map,
  none, some, text_eq, ℕ, ◌+◌, ◌-◌, ◌∷◌,
}
use ai_support_engineering_p.Common.Exec.{Result, err, lift, ok, ◌>>=◌, ◌>>◌}
use ai_support_engineering_p.Db.{
  AgentExecutionRecord, AgentStatus, AgentStepRecord, Db, EvidenceReference, NextAction,
  StepOutcome,
}
use ai_support_engineering_p.Db.Json.{Value, object}
use text.Mathlib.Text.{◌==◌ as str_eq}

-- The number of distinct `reference_id`s of runbook references.
unfoldable pub runbook_count : List EvidenceReference → ℕ
runbook_count references =
    length (fromkeys text_eq (map (λ r. r.reference_id) (keep is_runbook references)))

module _ (env : Env) where
  unfoldable pub tool_step :
      String → ℕ → PlannerDecision → ToolRequest → ToolResult → AgentStepRecord
  tool_step x n decision request result = record {
    execution_id = x;
    step_number = n;
    action_type = NextAction.tool;
    tool_name = some request.tool_name;
    sanitized_arguments = some (sanitize_value env 0 (object request.arguments));
    result_summary = some (sanitize_value env 0 (env.dump_result result));
    evidence_references = result.evidence_references;
    reason_summary = decision.reason_summary;
    expected_evidence = decision.expected_evidence;
    outcome = StepOutcome.succeeded;
    duration_ms = result.duration_ms;
  }

  abbrev pub requested_tool : Option ToolRequest → Option String
  requested_tool none = none
  requested_tool (some request) = some request.tool_name

  abbrev pub requested_arguments : Option ToolRequest → Option Value
  requested_arguments none = none
  requested_arguments (some request) = some (sanitize_value env 0 (object request.arguments))

  unfoldable pub rejected_step :
      String → ℕ → PlannerDecision → Option ToolRequest → StepOutcome → AgentStepRecord
  rejected_step x n decision request outcome = record {
    execution_id = x;
    step_number = n;
    action_type = decision.next_action;
    tool_name = requested_tool request;
    sanitized_arguments = requested_arguments request;
    result_summary = none;
    evidence_references = [];
    reason_summary = decision.reason_summary;
    expected_evidence = decision.expected_evidence;
    outcome = outcome;
    duration_ms = 0;
  }

  -- The counters of the execution that a succeeded tool step moves.
  unfoldable pub count_tool_step :
      ℕ → ToolRequest → ToolResult → ℕ → AgentExecutionRecord → AgentExecutionRecord
  count_tool_step n request result now r = record r {
    status = AgentStatus.running;
    step_count = n;
    tool_call_count = r.tool_call_count + 1;
    retrieved_chunk_count = r.retrieved_chunk_count + runbook_count result.evidence_references;
    retrieval_duration_ms =
        r.retrieval_duration_ms
        + (if str_eq request.tool_name "retrieve_runbooks" then result.duration_ms else 0);
    tool_duration_ms = r.tool_duration_ms + result.duration_ms;
    updated_at = now;
  }

  abbrev pub count_rejected_step : ℕ → ℕ → AgentExecutionRecord → AgentExecutionRecord
  count_rejected_step n now r = record r {
    status = AgentStatus.running;
    step_count = n;
    updated_at = now;
  }

  abbrev pub with_counts :
      AgentStepRecord
      → (AgentExecutionRecord → AgentExecutionRecord)
      → Result Failure Db
      → Result Failure (AgentStepRecord × Db)
  with_counts row counts (ok db) = ok (row, set_execution row.execution_id counts db)
  with_counts row counts (err e) = err e

  -- One session that adds a step and moves the counters of its execution. The check that the
  -- execution is there stands before the commit, at which the constraints of the row are tested.
  unfoldable pub step_session :
      AgentStepRecord
      → (AgentExecutionRecord → AgentExecutionRecord)
      → Db
      → Result Failure (AgentStepRecord × Db)
  step_session row counts db = elim (find_execution row.execution_id db) [
    | none ↦ err (sqlalchemy (codes "Agent execution disappeared"))
    | some r ↦ with_counts row counts (add_step row db)
  ]

  -- The `refresh` that reads the row again after the commit is taken to succeed.
  unfoldable pub persist_tool_step :
      String → ℕ → PlannerDecision → ToolRequest → ToolResult → M AgentStepRecord
  persist_tool_step x n decision request result = do
    now ← ask env.now
    transaction env (
        step_session (tool_step x n decision request result) (count_tool_step n request result now))

  unfoldable pub persist_rejected_step :
      String → ℕ → PlannerDecision → Option ToolRequest → StepOutcome → M AgentStepRecord
  persist_rejected_step x n decision request outcome = do
    now ← ask env.now
    transaction env
        (step_session (rejected_step x n decision request outcome) (count_rejected_step n now))

  -- `_restore_results`: the results of succeeded tool steps, by their step number.
  abbrev pub is_tool_step : AgentStepRecord → Bool
  is_tool_step r = elim r.action_type [
    | NextAction.tool ↦ is_succeeded r.outcome
    | NextAction.final ↦ false
  ]

  abbrev pub load_result : Value → Result Failure ToolResult
  load_result v = elim (env.load_result v) [
    | none ↦ err (model_validation (codes "ToolResult"))
    | some result ↦ ok result
  ]

  abbrev pub restore_one :
      ℕ
      → Result Failure ToolResult
      → Result Failure (List (ℕ × ToolResult))
      → Result Failure (List (ℕ × ToolResult))
  restore_one n (err e) later = err e
  restore_one n (ok result) (err e) = err e
  restore_one n (ok result) (ok results) = ok ((n, result) ∷ results)

  unfoldable pub restore_results : List AgentStepRecord → Result Failure (List (ℕ × ToolResult))
  restore_results [] = ok []
  restore_results (r ∷ records) =
      let later = restore_results records in
      if is_tool_step r
      then elim r.result_summary [
        | none ↦ later
        | some v ↦ restore_one r.step_number (load_result v) later
      ]
      else later

  -- The `finally` block of `_model_call`: an execution that is gone is passed over.
  unfoldable pub count_model_call :
      ℕ → ℕ → ℕ → Value → ℕ → AgentExecutionRecord → AgentExecutionRecord
  count_model_call duration prompt_chars output_chars usage now r = record r {
    model_call_count = r.model_call_count + 1;
    provider_duration_ms = r.provider_duration_ms + duration;
    approximate_input_chars = r.approximate_input_chars + prompt_chars;
    approximate_output_chars = r.approximate_output_chars + output_chars;
    provider_usage = some usage;
    updated_at = now;
  }

  unfoldable pub model_session :
      String → (AgentExecutionRecord → AgentExecutionRecord) → Db → Result Failure (Unit {0} × Db)
  model_session x counts db = elim (find_execution x db) [
    | none ↦ ok (tt, db)
    | some r ↦ ok (tt, set_execution x counts db)
  ]

  abbrev pub chars_of : {A : Type 0} → Result Failure (A × ℕ) → ℕ
  chars_of (ok (a, chars)) = chars
  chars_of (err e) = 0

  abbrev pub response_of : {A : Type 0} → Result Failure (A × ℕ) → Result Failure A
  response_of (ok (a, chars)) = ok a
  response_of (err e) = err e

  -- `_model_call`, for the provider's method that fits the response model. The accounting runs
  -- whether the call returned or raised, and an exception of its own replaces that of the call.
  unfoldable pub model_call :
      {A : Type 0} → String → (ℕ → Text → Result Failure (A × ℕ)) → Text → M A
  model_call x generate prompt = do
    started ← ask env.perf_counter
    response ← ask (λ n. generate n prompt)
    finished ← ask env.perf_counter
    usage ← ask env.last_usage
    now ← ask env.now
    transaction env (
        model_session x (
          count_model_call (finished - started) (length prompt) (chars_of response)
            (sanitize_value env 0 usage) now))
    lift (response_of response)
