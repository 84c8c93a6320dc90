-- ===== src/Agent/Loop.antt =====
-- `_resolve` of agent/workflow.py: the claim, the loop over the planner's turns, and what each
-- exception that leaves the loop is recorded as.
pub mod Progress
pub mod Termination
pub mod Failures
pub mod Redelivery
use ai_support_engineering_p.Agent.Acting.{Next, act_on, again, finished}
use ai_support_engineering_p.Agent.Claim.{Outcome, claim}
use ai_support_engineering_p.Agent.Env.{Env, M, World, ask, transaction}
use ai_support_engineering_p.Agent.Evidence.{is_succeeded, signature}
use ai_support_engineering_p.Agent.Failing.{check_budgets, record_failure, record_terminal_failure}
use ai_support_engineering_p.Agent.Failure.{
  Failure, agent_validation, budget_exceeded, deferred, model_validation, provider_unavailable,
  retryable_resolution, safe_error, sqlalchemy, tool_execution, tool_timeout,
  unauthorized_arguments, unknown_tool,
}
use ai_support_engineering_p.Agent.Models.{AgentLimits, IncidentCreatedEvent, ToolResult}
use ai_support_engineering_p.Agent.Planning.{LoopState, plan_turn}
use ai_support_engineering_p.Agent.Steps.{restore_results}
use ai_support_engineering_p.Agent.Tables.{load_steps}
use ai_support_engineering_p.Common.{
  List, Option, String, Text, [], codes, count, false, if◌then◌else◌, length, none, not, or_else,
  some, suc, true, zero, ℕ, ◌&&◌, ◌*◌, ◌++◌, ◌+◌, ◌∷◌,
}
use ai_support_engineering_p.Common.Exec.{Result, err, lift, ok, pure, raise, ◌>>=◌, ◌>>◌}
use ai_support_engineering_p.Db.{AgentStepRecord, Db}
use ai_support_engineering_p.Db.Json.{end, object}
use text.Mathlib.Text.{◌==◌ as str_eq}

-- `_record_failure` as retryable, as invalid output, or as a budget that is used up; any other
-- exception leaves `_resolve` as it is.
pub data Handler : Type 0 where
  transient invalid exhausted uncaught : Handler

unfoldable pub handler_of : Failure → Handler
handler_of (Failure.provider_unavailable t) = Handler.transient
handler_of (Failure.tool_timeout n) = Handler.transient
handler_of (Failure.sqlalchemy t) = Handler.transient
handler_of (Failure.agent_validation c) = Handler.invalid
handler_of (Failure.unknown_tool n) = Handler.invalid
handler_of Failure.unauthorized_arguments = Handler.invalid
handler_of (Failure.tool_execution f) = Handler.invalid
handler_of (Failure.budget_exceeded b) = Handler.exhausted
handler_of (Failure.provider_response t) = Handler.uncaught
handler_of (Failure.structured_output t) = Handler.uncaught
handler_of (Failure.provider_error t) = Handler.uncaught
handler_of (Failure.retryable_resolution d) = Handler.uncaught
handler_of (Failure.model_validation t) = Handler.uncaught
handler_of (Failure.unexpected t) = Handler.uncaught

abbrev pub Run : Type 0 → Type 0
Run A = Option (Result Failure A × World)

module _ (env : Env) (limits : AgentLimits) (event : IncidentCreatedEvent) where
  -- One round of `while True`.
  unfoldable pub iterate : String → ℕ → LoopState → M Next
  iterate x started s = do
    check_budgets env limits x started (length s.steps)
    turn ← plan_turn env limits event x s
    act_on env limits event x turn

  abbrev pub resume :
      (LoopState → World → Run (Unit {0})) → Result Failure Next × World → Run (Unit {0})
  resume k (err e, w) = some (err e, w)
  resume k (ok finished, w) = some (ok tt, w)
  resume k (ok (again s), w) = k s w

  -- `none` is a loop that has used up its fuel.
  unfoldable pub loop : ℕ → String → ℕ → LoopState → World → Run (Unit {0})
  loop zero x started s w = none
  loop (suc fuel) x started s w = resume (loop fuel x started) (iterate x started s w)

  -- Rounds that are enough: each adds a step or repairs the planner's answer.
  abbrev pub enough_fuel : ℕ
  enough_fuel = (limits.max_steps + 1) * (limits.repair_attempts + 1)

  abbrev pub stored_signature : AgentStepRecord → List Text
  stored_signature r = elim r.tool_name [
    | none ↦ []
    | some name ↦
        if not (str_eq name "") && is_succeeded r.outcome
        then signature env name (or_else r.sanitized_arguments (object end)) ∷ []
        else []
  ]

  stored_signatures : List AgentStepRecord → List Text
  stored_signatures [] = []
  stored_signatures (r ∷ steps) = stored_signature r ++ stored_signatures steps

  -- The loop's variables, from the steps that an earlier run has stored.
  unfoldable pub initial_state : List AgentStepRecord → List (ℕ × ToolResult) → LoopState
  unfolding stored_signatures
  initial_state steps results = record {
    steps = steps;
    results = results;
    tool_calls = count (λ r. is_succeeded r.outcome) steps;
    signatures = stored_signatures steps;
    repair_count = 0;
    last_error = codes "none";
  }

  abbrev pub read_steps : String → Db → Result Failure (List AgentStepRecord × Db)
  read_steps x db = ok (load_steps x db, db)

  unfoldable pub restore : String → M LoopState
  restore x = do
    steps ← transaction env (read_steps x)
    results ← lift (restore_results env steps)
    pure (initial_state steps results)

  -- The `try` block.
  abbrev pub start : String → ℕ → Result Failure LoopState × World → Run (Unit {0})
  start x started (err e, w) = some (err e, w)
  start x started (ok s, w) = loop enough_fuel x started s w

  unfoldable pub run : String → ℕ → World → Run (Unit {0})
  run x started w = start x started (restore x w)

  abbrev pub deferral : Failure → Failure
  deferral e = retryable_resolution (deferred (safe_error (env.str e)))

  -- The bodies of the `except` clauses round it.
  unfoldable pub handled : String → Failure → Handler → M Outcome
  handled x e Handler.transient = do record_failure env limits x e true; raise (deferral e)
  handled x e Handler.invalid = do
    terminal ← record_failure env limits x e false
    if terminal then pure Outcome.failed else raise (deferral e)
  handled x e Handler.exhausted = do record_terminal_failure env limits x e; pure Outcome.failed
  handled x e Handler.uncaught = raise e

  unfoldable pub settle : String → Result Failure (Unit {0}) → M Outcome
  settle x (ok _) = pure Outcome.completed
  settle x (err e) = handled x e (handler_of e)

  abbrev pub settle_run : String → Run (Unit {0}) → Run Outcome
  settle_run x none = none
  settle_run x (some (r, w)) = some (settle x r w)

  abbrev pub run_claimed : Result Failure (ℕ × String × Option Outcome) × World → Run Outcome
  run_claimed (err e, w) = some (err e, w)
  run_claimed (ok (started, x, some outcome), w) = some (ok outcome, w)
  run_claimed (ok (started, x, none), w) = settle_run x (run x started w)

  abbrev pub claim_and_start : M (ℕ × String × Option Outcome)
  claim_and_start = do
    (x, terminal) ← claim env event
    started ← ask env.perf_counter
    pure (started, x, terminal)

  unfoldable pub resolve : World → Run Outcome
  resolve w = run_claimed (claim_and_start w)
