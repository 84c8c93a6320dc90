-- ===== src/Agent/Failing.antt =====
-- Budgets, status changes and recorded failures of agent/workflow.py.
use ai_support_engineering_p.Agent.Env.{Env, M, ask, transaction}
use ai_support_engineering_p.Agent.Evidence.{missing_required_evidence}
use ai_support_engineering_p.Agent.Failure.{
  Budget, Failure, budget_exceeded, class_name, retryable_resolution, safe_error, sqlalchemy,
  state_disappeared,
}
use ai_support_engineering_p.Agent.Models.{AgentLimits}
use ai_support_engineering_p.Agent.Tables.{
  find_execution, load_steps, set_execution, set_resolution,
}
use ai_support_engineering_p.Common.{
  Bool, String, codes, false, if◌then◌else◌, is_empty, leb, max, none, not, some, true, ℕ, ◌&&◌,
  ◌+◌, ◌-◌,
}
use ai_support_engineering_p.Common.Exec.{Result, err, ok, pure, raise, ◌>>=◌, ◌>>◌}
use ai_support_engineering_p.Db.{
  AiResolutionRecord, AiResolutionStatus, AgentExecutionRecord, AgentStatus, Db,
}

module _ (env : Env) where
  -- `_set_status`.
  abbrev pub with_status : AgentStatus → ℕ → AgentExecutionRecord → AgentExecutionRecord
  with_status status now r = record r { status = status; updated_at = now }

  unfoldable pub set_status : String → AgentStatus → M (Unit {0})
  set_status x status = do
    now ← ask env.now
    transaction env λ db. elim (find_execution x db) [
      | none ↦ err (sqlalchemy (codes "Agent execution disappeared"))
      | some r ↦ ok (tt, set_execution x (with_status status now) db)
    ]

  module _ (limits : AgentLimits) where
    unfoldable pub fail_execution : Failure → Bool → ℕ → AgentExecutionRecord → AgentExecutionRecord
    fail_execution error terminal now r = record r {
      status = if terminal then AgentStatus.failed else AgentStatus.retryable;
      error_type = some (class_name error);
      error_message_safe = some (safe_error (env.str error));
      updated_at = now;
    }

    unfoldable pub fail_resolution : Failure → Bool → ℕ → AiResolutionRecord → AiResolutionRecord
    fail_resolution error terminal now r = record r {
      status = if terminal then AiResolutionStatus.failed else AiResolutionStatus.retryable;
      error_message = some (safe_error (env.str error));
      updated_at = now;
    }

    -- `not retryable and execution.retry_count + 1 >= self.limits.model_retries`.
    unfoldable pub is_terminal : Bool → AgentExecutionRecord → Bool
    is_terminal retryable r = not retryable && leb limits.model_retries (r.retry_count + 1)

    abbrev pub fail_rows :
        String → Failure → Bool → ℕ → AgentExecutionRecord → Db → Result Failure (Bool × Db)
    fail_rows x error retryable now r db =
        let terminal : Bool = is_terminal retryable r in
        ok (
          terminal,
          set_resolution r.incident_id (fail_resolution error terminal now)
              (set_execution x (fail_execution error terminal now) db),
        )

    unfoldable pub fail_session : String → Failure → Bool → ℕ → Db → Result Failure (Bool × Db)
    fail_session x error retryable now db = elim (find_execution x db) [
      | none ↦ err (retryable_resolution state_disappeared)
      | some r ↦ fail_rows x error retryable now r db
    ]

    -- `_record_failure`: whether the failure is terminal.
    unfoldable pub record_failure : String → Failure → Bool → M Bool
    record_failure x error retryable = do
      now ← ask env.now
      transaction env (fail_session x error retryable now)

    -- `max(execution.retry_count, self.limits.model_retries - 1)`; `model_retries` is at least 1.
    abbrev pub exhaust : AgentExecutionRecord → AgentExecutionRecord
    exhaust r = record r { retry_count = max r.retry_count (limits.model_retries - 1) }

    -- The first session of `_record_terminal_failure`: whether the execution is still there.
    unfoldable pub exhaust_session : String → Db → Result Failure (Bool × Db)
    exhaust_session x db = elim (find_execution x db) [
      | none ↦ ok (false, db)
      | some r ↦ ok (true, set_execution x exhaust db)
    ]

    unfoldable pub record_terminal_failure : String → Failure → M (Unit {0})
    record_terminal_failure x error = do
      present ← transaction env (exhaust_session x)
      if present then record_failure x error false >> pure tt else pure tt

    -- The part of `_check_time_and_step_budgets` that reads the database.
    abbrev pub too_old : ℕ → AgentExecutionRecord → Bool
    too_old now r = leb (r.created_at + limits.max_duration) now

    unfoldable pub check_execution : String → ℕ → Db → Result Failure (Unit {0} × Db)
    check_execution x now db = elim (find_execution x db) [
      | none ↦ ok (tt, db)
      | some r ↦
          if leb limits.max_tool_calls r.tool_call_count
            && not (is_empty (missing_required_evidence (load_steps x db)))
          then err (budget_exceeded Budget.tool_calls_before_evidence)
          else if too_old now r
          then err (budget_exceeded Budget.max_total_duration)
          else ok (tt, db)
    ]

    unfoldable pub check_budgets : String → ℕ → ℕ → M (Unit {0})
    check_budgets x started step_count =
        if leb limits.max_steps step_count then raise (budget_exceeded Budget.max_steps) else do
          elapsed ← ask env.perf_counter
          if leb (started + limits.max_duration) elapsed
              then raise (budget_exceeded Budget.max_duration)
              else do now ← ask env.now; transaction env (check_execution x now)
