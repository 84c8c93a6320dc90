-- ===== src/Agent/Acting.antt =====
-- What a decision of the planner does in `_resolve` of agent/workflow.py: a tool call with its
-- guards, or the final response.
use ai_support_engineering_p.Agent.Env.{Env, M}
use ai_support_engineering_p.Agent.Evidence.{has_called, missing_required_evidence, signature}
use ai_support_engineering_p.Agent.Failing.{set_status}
use ai_support_engineering_p.Agent.Failure.{
  Complaint, Failure, agent_validation, is_agent_validation, is_tool_execution, is_tool_timeout,
  model_validation, safe_error,
}
use ai_support_engineering_p.Agent.Final.{generate_final, persist_final}
use ai_support_engineering_p.Agent.Models.{
  AgentLimits, IncidentCreatedEvent, PlannerDecision, ToolRequest, ToolResult,
}
use ai_support_engineering_p.Agent.Planning.{LoopState, Planned}
use ai_support_engineering_p.Agent.Steps.{persist_rejected_step, persist_tool_step}
use ai_support_engineering_p.Agent.Tools.{ToolContext, execute}
use ai_support_engineering_p.Common.{
  Bool, List, Option, String, Text, [], codes, count, if◌then◌else◌, is_empty, leb, length, ltb,
  none, not, or_else, some, text_eq, ◌&&◌, ◌++◌, ◌+◌, ◌||◌, ◌∷◌,
}
use ai_support_engineering_p.Common.Exec.{Result, attempt, err, lift, ok, pure, raise, ◌>>=◌, ◌>>◌}
use ai_support_engineering_p.Db.{AgentStatus, AgentStepRecord, NextAction, StepOutcome}
use ai_support_engineering_p.Db.Json.{end, object}
use text.Mathlib.Text.{◌==◌ as str_eq}

-- `again` is `continue`; `finished` is the return of COMPLETED.
pub data Next : Type 0 where
  again : LoopState → Next
  finished : Next

abbrev pub with_step : LoopState → AgentStepRecord → LoopState
with_step s row = record s { steps = s.steps ++ row ∷ [] }

-- `except (ToolExecutionError, AgentValidationError)`, from which a timeout is raised again.
abbrev pub is_rejection : Failure → Bool
is_rejection e = (is_tool_execution e || is_agent_validation e) && not (is_tool_timeout e)

-- `retrieve_runbooks` runs at most once with success.
abbrev pub repeated_retrieval : LoopState → String → Bool
repeated_retrieval s name =
    str_eq name "retrieve_runbooks" && has_called "retrieve_runbooks" s.steps

abbrev pub is_repeated : AgentLimits → LoopState → Text → String → Bool
is_repeated limits s sig name =
    leb limits.max_repeated_tool_calls (count (text_eq sig) s.signatures)
    || repeated_retrieval s name

module _ (env : Env) (limits : AgentLimits) (event : IncidentCreatedEvent) (x : String) where
  abbrev pub rejected_state : LoopState → AgentStepRecord → Text → LoopState
  rejected_state s row error = record s {
    steps = s.steps ++ row ∷ [];
    repair_count = s.repair_count + 1;
    last_error = error;
  }

  -- Adds a rejected step, then stops if the repairs are used up and otherwise goes on by `k`.
  unfoldable pub reject :
      LoopState
      → PlannerDecision
      → Option ToolRequest
      → StepOutcome
      → Text
      → Complaint
      → (LoopState → M Next)
      → M Next
  reject s decision request outcome error complaint k = do
    row ← persist_rejected_step env x (length s.steps + 1) decision request outcome
    let s' = rejected_state s row error
    if ltb limits.repair_attempts s'.repair_count then raise (agent_validation complaint) else k s'

  abbrev pub go_on : LoopState → M Next
  go_on s = pure (again s)

  abbrev pub go_on_running : LoopState → M Next
  go_on_running s = do set_status env x AgentStatus.running; pure (again s)

  abbrev pub succeeded_state : LoopState → Text → AgentStepRecord → ToolResult → LoopState
  succeeded_state s sig row result = record s {
    steps = s.steps ++ row ∷ [];
    results = s.results ++ (row.step_number, result) ∷ [];
    tool_calls = s.tool_calls + 1;
    signatures = sig ∷ s.signatures;
    repair_count = 0;
    last_error = codes "none";
  }

  unfoldable pub after_tool :
      LoopState → PlannerDecision → ToolRequest → Text → Result Failure ToolResult → M Next
  after_tool s decision request sig (ok result) = do
    row ← persist_tool_step env x (length s.steps + 1) decision request result
    pure (again (succeeded_state s sig row result))
  after_tool s decision request sig (err e) =
      if is_rejection e
      then reject s decision (some request) StepOutcome.tool_request_rejected
          (safe_error (env.str e)) Complaint.tool_request_invalid go_on_running
      else raise e

  abbrev pub context_of : LoopState → ToolContext
  context_of s = record { incident_id = event.incident_id; previous_results = s.results }

  -- `ToolRequest` has a tool name of at least one character.
  unfoldable pub make_request : PlannerDecision → Result Failure ToolRequest
  make_request decision =
      let name = or_else decision.tool_name "" in
      if str_eq name ""
      then err (model_validation (codes "ToolRequest"))
      else ok (record { tool_name = name; arguments = or_else decision.tool_arguments end })

  unfoldable pub call_tool : LoopState → PlannerDecision → ToolRequest → M Next
  call_tool s decision request =
      let sig = signature env request.tool_name (object request.arguments) in
      if is_repeated limits s sig request.tool_name
      then reject s decision (some request) StepOutcome.repeated_tool_call
          (codes "That exact tool call already ran; choose new evidence or final.")
          Complaint.repeated_call_guardrail go_on
      else do
        set_status env x AgentStatus.waiting_for_tool
        result ← attempt (execute env limits.max_tool_calls request (context_of s) s.tool_calls)
        after_tool s decision request sig result

  -- `", ".join(missing)`, of at most two names.
  join_names : List String → Text
  join_names [] = []
  join_names (name ∷ []) = codes name
  join_names (name ∷ more ∷ names) = codes name ++ (codes ", " ++ join_names (more ∷ names))

  unfoldable pub conclude : LoopState → PlannerDecision → M Next
  conclude s decision = do
    final ← generate_final env x limits.repair_attempts event s.steps s.results
    persist_final env x event decision final s.steps s.results
    pure finished

  unfoldable pub act_final : LoopState → PlannerDecision → M Next
  unfolding join_names
  act_final s decision =
      let missing = missing_required_evidence s.steps in
      if is_empty missing
      then conclude s decision
      else reject s decision none StepOutcome.final_missing_required_evidence
          (codes "Before final, call required tools: " ++ join_names missing)
          Complaint.final_without_evidence go_on

  unfoldable pub act_tool : LoopState → PlannerDecision → M Next
  act_tool s decision = do request ← lift (make_request decision); call_tool s decision request

  unfoldable pub act_on : Planned → M Next
  act_on (Planned.replan s) = pure (again s)
  act_on (Planned.act s decision) = elim decision.next_action [
    | NextAction.tool ↦ act_tool s decision
    | NextAction.final ↦ act_final s decision
  ]
