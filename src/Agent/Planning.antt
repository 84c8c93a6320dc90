-- ===== src/Agent/Planning.antt =====
-- One turn of the planner in `_resolve` of agent/workflow.py: the prompt, `_plan`, and what an
-- unusable answer leads to (another turn, the deterministic fallback, or an exception).
use ai_support_engineering_p.Agent.Env.{Env, M}
use ai_support_engineering_p.Agent.Evidence.{missing_required_evidence}
use ai_support_engineering_p.Agent.Failure.{
  Complaint, Failure, agent_validation, is_response_error, is_structured_output, safe_error,
}
use ai_support_engineering_p.Agent.Models.{
  AgentLimits, IncidentCreatedEvent, PlannerDecision, ToolResult, from_required_incident,
  from_required_retrieval,
}
use ai_support_engineering_p.Agent.Steps.{model_call}
use ai_support_engineering_p.Common.{
  List, Option, String, Text, [], codes, if◌then◌else◌, is_some, ltb, none, not, some, take, ℕ,
  ◌++◌, ◌+◌, ◌||◌, ◌∷◌,
}
use ai_support_engineering_p.Common.Exec.{Result, attempt, err, ok, pure, raise, ◌>>=◌}
use ai_support_engineering_p.Db.{AgentStepRecord, NextAction}
use text.Mathlib.Text.{◌==◌ as str_eq}

pub record LoopState : Type 0 where
  pub steps : List AgentStepRecord
  pub results : List (ℕ × ToolResult)
  pub tool_calls : ℕ
  -- the `Counter` of signatures, as the list of those counted
  pub signatures : List Text
  pub repair_count : ℕ
  pub last_error : Text

-- `act` goes on to the decision, `replan` is `continue`.
pub data Planned : Type 0 where
  act : LoopState → PlannerDecision → Planned
  replan : LoopState → Planned

abbrev pub head_of : List String → Option String
head_of [] = none
head_of (name ∷ names) = some name

-- `required_tools[0] if required_tools else None`.
abbrev pub required_tool : List AgentStepRecord → Option String
required_tool steps = head_of (missing_required_evidence steps)

unfoldable pub server_policy : Option String → Text
server_policy none = []
server_policy (some name) =
    codes "\nSERVER POLICY: The next action must be the typed tool "
    ++ (codes name ++ codes ". Final output is not eligible yet.")

-- `_grounded_final_fallback`.
abbrev pub fallback_decision : PlannerDecision
fallback_decision = record {
  goal = codes "Produce a grounded resolution from validated evidence.";
  next_action = NextAction.final;
  tool_name = none;
  tool_arguments = none;
  reason_summary = codes "Required incident and runbook evidence is available.";
  expected_evidence = codes "A cited resolution using only the validated evidence.";
}

module _ (env : Env) (limits : AgentLimits) (event : IncidentCreatedEvent) (x : String) where
  -- `_build_planner_prompt`; `render_planner` has the catalog, the limits and the step history.
  unfoldable pub planner_prompt : List AgentStepRecord → Text → Option String → Text
  planner_prompt steps last_error required =
      env.render_planner event steps (take 1000 last_error) ++ server_policy required

  abbrev pub plan_free : Text → M PlannerDecision
  plan_free prompt = model_call env x env.plan prompt

  abbrev pub plan_incident : Text → M PlannerDecision
  plan_incident prompt = do
    raw ← model_call env x env.plan_incident prompt
    pure (from_required_incident raw)

  abbrev pub plan_retrieval : Text → M PlannerDecision
  plan_retrieval prompt = do
    raw ← model_call env x env.plan_retrieval prompt
    pure (from_required_retrieval raw)

  -- `_plan`: the schema of the answer depends on the tool that is required.
  unfoldable pub plan : Text → Option String → M PlannerDecision
  plan prompt none = plan_free prompt
  plan prompt (some name) =
      if str_eq name "get_incident"
      then plan_incident prompt
      else if str_eq name "retrieve_runbooks"
      then plan_retrieval prompt
      else plan_free prompt

  abbrev pub repaired : LoopState → Failure → LoopState
  repaired s e = record s { repair_count = s.repair_count + 1; last_error = safe_error (env.str e) }

  -- The `except ProviderResponseError` clause.
  unfoldable pub repair : LoopState → Option String → Failure → M Planned
  repair s required e =
      if ltb limits.repair_attempts (s.repair_count + 1)
      then if is_some required || not (is_structured_output e)
        then raise (agent_validation Complaint.planner_output_invalid)
        else pure (act (repaired s e) fallback_decision)
      else pure (replan (repaired s e))

  unfoldable pub planned : LoopState → Option String → Result Failure PlannerDecision → M Planned
  planned s required (ok decision) = pure (act s decision)
  planned s required (err e) = if is_response_error e then repair s required e else raise e

  unfoldable pub plan_turn : LoopState → M Planned
  plan_turn s = do
    let required = required_tool s.steps
    answer ← attempt (plan (planner_prompt s.steps s.last_error required) required)
    planned s required answer
