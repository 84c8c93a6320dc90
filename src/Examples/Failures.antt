-- ===== src/Examples/Failures.antt =====
-- Witnesses for what is stored of a failure and of an event that is delivered again.
use ai_support_engineering_p.Agent.Claim.{Outcome, new_execution, new_resolution}
use ai_support_engineering_p.Agent.Env.{World}
use ai_support_engineering_p.Agent.Failure.{
  Budget, Complaint, Failure, agent_validation, budget_exceeded,
}
use ai_support_engineering_p.Agent.Loop.{deferral, handler_of, settle}
use ai_support_engineering_p.Agent.Loop.Failures.{
  NotAnswered, Recorded, settle-exhausted, settle-invalid, settle-transient,
}
use ai_support_engineering_p.Agent.Loop.Redelivery.{Final, GivesUp, settle-Final}
use ai_support_engineering_p.Agent.Tables.{by_incident, find_execution, find_resolution}
use ai_support_engineering_p.Common.{
  [], false, find, if◌then◌else◌, leb, refl, some, true, ◌+◌, ◌∷◌, ◌≡◌,
}
use ai_support_engineering_p.Common.Exec.{err, ok}
use ai_support_engineering_p.Db.{AgentExecutionRecord, AiResolutionRecord}
use ai_support_engineering_p.Examples.Data.{
  first_world, sample_env, sample_event, sample_incident, sample_limits,
}

abbrev started_execution : AgentExecutionRecord
started_execution = new_execution sample_env sample_event "x-1" 1 0

abbrev started_resolution : AiResolutionRecord
started_resolution = new_resolution sample_env sample_event 1 0

abbrev started_world : World
started_world = record first_world {
  db = record first_world.db {
    executions = started_execution ∷ [];
    resolutions = started_resolution ∷ [];
  };
}

started_row : find_execution "x-1" started_world.db ≡ some started_execution
unfolding new_execution
started_row = refl

started_incident : find (by_incident 7) started_world.db.executions ≡ some started_execution
unfolding new_execution
started_incident = refl

started_held :
    find_resolution started_execution.incident_id started_world.db ≡ some started_resolution
unfolding new_execution new_resolution
started_held = refl

settle-transient_example :
    let e = Failure.tool_timeout "get_incident" in
    let o = settle sample_env sample_limits sample_event "x-1" (err e) started_world in
    (o.0 ≡ err (deferral sample_env sample_limits sample_event e))
    × Recorded sample_env sample_limits sample_event "x-1" e false started_execution.incident_id
        o.1.db
settle-transient_example =
    settle-transient sample_env sample_limits sample_event "x-1"
      (Failure.tool_timeout "get_incident") (λ n. refl) started_world started_execution
      started_resolution started_row started_held NotAnswered.by_tool

settle-invalid_example :
    let e = agent_validation Complaint.repeated_call_guardrail in
    let o = settle sample_env sample_limits sample_event "x-1" (err e) started_world in
    let terminal = leb 3 (started_execution.retry_count + 1) in
    (o.0 ≡ (
      if terminal
      then ok Outcome.failed
      else err (deferral sample_env sample_limits sample_event e)))
    × Recorded sample_env sample_limits sample_event "x-1" e terminal started_execution.incident_id
        o.1.db
unfolding handler_of
settle-invalid_example =
    settle-invalid sample_env sample_limits sample_event "x-1"
      (agent_validation Complaint.repeated_call_guardrail) (λ n. refl) started_world
      started_execution started_resolution started_row started_held refl

settle-exhausted_example :
    let e = budget_exceeded Budget.max_steps in
    let o = settle sample_env sample_limits sample_event "x-1" (err e) started_world in
    (o.0 ≡ ok Outcome.failed)
    × Recorded sample_env sample_limits sample_event "x-1" e true started_execution.incident_id
        o.1.db
unfolding handler_of
settle-exhausted_example =
    settle-exhausted sample_env sample_limits sample_event "x-1" (budget_exceeded Budget.max_steps)
      (λ n. refl) started_world started_execution started_resolution started_row started_held refl

settle-Final_example :
    Final sample_env sample_limits sample_event
      (λ n. refl)
      "x-1"
      (budget_exceeded Budget.max_steps)
      2
      started_world
settle-Final_example =
    settle-Final sample_env sample_limits sample_event (λ n. refl) "x-1"
      (budget_exceeded Budget.max_steps) started_world sample_incident started_execution refl
      started_row started_incident GivesUp.budget 2
