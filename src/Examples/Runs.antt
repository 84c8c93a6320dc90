-- ===== src/Examples/Runs.antt =====
-- Witnesses for the properties of whole runs.
use ai_support_engineering_p.Agent.Acting.{
  act_final, act_on, act_tool, after_tool, call_tool, conclude, make_request,
}
use ai_support_engineering_p.Agent.Audit.{Audited}
use ai_support_engineering_p.Agent.Audit.Outcomes.{resolve-Completed}
use ai_support_engineering_p.Agent.Audit.Resolved.{resolve-Audited}
use ai_support_engineering_p.Agent.Audit.Stepping.{Completed}
use ai_support_engineering_p.Agent.Claim.{
  Outcome, claim, claim_execution, claim_resolution, claim_session, new_execution, new_resolution,
  terminal_outcome,
}
use ai_support_engineering_p.Agent.Env.{World, ask, transaction}
use ai_support_engineering_p.Agent.Evidence.{
  actual_tools, citations, evidence_references, get_field, missing_required_evidence, put_chunk,
  reference_eq, retrieved_context, signature,
}
use ai_support_engineering_p.Agent.Failing.{check_budgets, check_execution, set_status}
use ai_support_engineering_p.Agent.Failure.{Failure, safe_error}
use ai_support_engineering_p.Agent.Final.{
  complete_execution, complete_resolution, final_attempts, final_session, final_step,
  generate_final, persist_final,
}
use ai_support_engineering_p.Agent.Loop.{
  Run, claim_and_start, initial_state, iterate, loop, resolve, restore, run, settle,
}
use ai_support_engineering_p.Agent.Loop.Termination.{resolve_total}
use ai_support_engineering_p.Agent.Models.{from_required_incident, from_required_retrieval}
use ai_support_engineering_p.Agent.Planning.{
  plan, plan_turn, planned, planner_prompt, server_policy,
}
use ai_support_engineering_p.Agent.Steps.{
  count_model_call, count_tool_step, model_call, model_session, persist_tool_step, restore_results,
  runbook_count, step_session, tool_step,
}
use ai_support_engineering_p.Agent.Tables.{add_step, insert_step_sorted, load_steps, order_steps}
use ai_support_engineering_p.Agent.Tools.{bounded_result, execute, validate}
use ai_support_engineering_p.Agent.Validation.{is_dangerous, validate_final, with_updates}
use ai_support_engineering_p.Common.{
  Bool, Option, String, arith, false, none, refl, some, true, ℕ, ◌≡◌,
}
use ai_support_engineering_p.Common.Exec.{Result, err, ok, ◌>>=◌}
use ai_support_engineering_p.Examples.Data.{first_world, sample_env, sample_event, sample_limits}
use mathlib.Core.Bool.{false≢true}

abbrev is_completed : Run Outcome → Bool
is_completed (some (ok Outcome.completed, w)) = true
is_completed _ = false

completed_run :
    (o : Run Outcome) → is_completed o ≡ true → (w : World) × (o ≡ some (ok Outcome.completed, w))
completed_run none h = absurd (false≢true h)
completed_run (some (ok Outcome.completed, w)) h = (w, refl)
completed_run (some (ok Outcome.failed, w)) h = absurd (false≢true h)
completed_run (some (err e, w)) h = absurd (false≢true h)

-- The run takes three steps and ends as COMPLETED.
completes : is_completed (resolve sample_env sample_limits sample_event first_world) ≡ true
unfolding resolve claim ◌>>=◌ ask transaction claim_session claim_execution claim_resolution
    terminal_outcome run restore load_steps order_steps insert_step_sorted restore_results
    initial_state loop iterate check_budgets check_execution missing_required_evidence plan_turn
    plan planned planner_prompt server_policy model_call model_session count_model_call
    from_required_incident from_required_retrieval act_on act_tool act_final call_tool make_request
    signature set_status execute validate bounded_result after_tool persist_tool_step step_session
    tool_step count_tool_step runbook_count add_step conclude generate_final final_attempts
    validate_final with_updates is_dangerous actual_tools evidence_references reference_eq citations
    retrieved_context persist_final final_session final_step complete_resolution complete_execution
    settle safe_error get_field put_chunk new_execution new_resolution
completes = refl

resolve_total_example :
    (r : Result Failure Outcome × World) × (resolve sample_env sample_limits sample_event
        first_world
      ≡ some r)
resolve_total_example = resolve_total sample_env sample_limits sample_event first_world

first-Audited : Audited sample_limits first_world.db
first-Audited = record {
  trail = λ y. record {
    numbered = tt;
    step_budget = omega arith;
    tool_budget = omega arith;
    one_retrieval = omega arith;
    counted = refl;
  };
}

abbrev total_run :
    (r : Result Failure Outcome × World) × (resolve sample_env sample_limits sample_event
        first_world
      ≡ some r)
total_run = resolve_total sample_env sample_limits sample_event first_world

resolve-Audited_example : Audited sample_limits total_run.0.1.db
resolve-Audited_example =
    resolve-Audited sample_env sample_limits sample_event first_world total_run.0.1 total_run.0.0
      first-Audited total_run.1

abbrev first_claim : Result Failure (ℕ × String × Option Outcome) × World
first_claim = claim_and_start sample_env sample_limits sample_event first_world

claims : first_claim ≡ (ok (4, "x-1", none), first_claim.1)
unfolding claim ◌>>=◌ ask transaction claim_session claim_execution
claims = refl

abbrev last_run :
    (w : World) × (resolve sample_env sample_limits sample_event first_world
      ≡ some (ok Outcome.completed, w))
last_run = completed_run (resolve sample_env sample_limits sample_event first_world) completes

resolve-Completed_example : Completed sample_env sample_limits sample_event "x-1" last_run.0.db
resolve-Completed_example =
    resolve-Completed sample_env sample_limits sample_event "x-1" first_world first_claim.1
      last_run.0 4 first-Audited claims last_run.1
