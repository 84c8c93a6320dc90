-- ===== src/Agent/Audit/Acts.antt =====
-- What a decision leads to keeps the audit trails: a tool call with its guards, a rejected
-- request, and the final step.
use ai_support_engineering_p.Agent.Acting.{
  Next, act_tool, after_tool, again, call_tool, context_of, go_on_running, is_rejection,
  is_repeated, make_request, reject, rejected_state, repeated_retrieval, succeeded_state, with_step,
}
use ai_support_engineering_p.Agent.Audit.{Audited, retrieval_count, succeeded_count}
use ai_support_engineering_p.Agent.Audit.Rounds.{
  execute-Kept, Kept-Audited, Kept-lift, set_status-Kept, step_session-Added,
}
use ai_support_engineering_p.Agent.Audit.Stepping.{
  Facts, Next-InLoop, knowing, persist_rejected_step-InLoop, same-InLoop, stepped,
}
use ai_support_engineering_p.Agent.Audit.Writes.{Counts, Extends, InLoop}
use ai_support_engineering_p.Agent.Env.{Env, M, World}
use ai_support_engineering_p.Agent.Env.Rules.{Db-Triple, Triple-ask}
use ai_support_engineering_p.Agent.Evidence.{is_succeeded, signature, succeeded_with}
use ai_support_engineering_p.Agent.Failure.{Complaint, Failure}
use ai_support_engineering_p.Agent.Models.{
  AgentLimits, IncidentCreatedEvent, PlannerDecision, ToolRequest, ToolResult,
}
use ai_support_engineering_p.Agent.Planning.{LoopState}
use ai_support_engineering_p.Agent.Steps.{count_tool_step, persist_tool_step, tool_step}
use ai_support_engineering_p.Common.{
  Option, String, Text, [], arith, count_none, false, if◌then◌else◌, length, ltb, refl, some, ℕ,
  ◌+◌, ◌<◌, ◌∷◌, ◌≡◌, ◌≤◌,
}
use ai_support_engineering_p.Common.Exec.{Result, err, ok, pure}
use ai_support_engineering_p.Common.Exec.Triple.{
  Attempted, Triple, Triple-attempt, Triple-bind, Triple-given, Triple-if, Triple-mono, Triple-pure,
  Triple-raise,
}
use ai_support_engineering_p.Db.{AgentStatus, StepOutcome}
use ai_support_engineering_p.Db.Json.{object}
use text.Mathlib.Text.{◌==◌ as str_eq}

module _ (env : Env) (limits : AgentLimits) (event : IncidentCreatedEvent) (x : String) where
  abbrev pub Acted : LoopState → M Next → Type 0
  Acted s m = Db-Triple (InLoop limits x s) m (Next-InLoop env limits event x) (Audited limits)

  pub reject-Acted :
      (s : LoopState) (decision : PlannerDecision) (request : Option ToolRequest)
      (outcome : StepOutcome) (error : Text) (c : Complaint) (k : LoopState → M Next)
      → is_succeeded outcome ≡ false
      → length s.steps < limits.max_steps
      → ((s' : LoopState) → Acted s' (k s'))
      → Acted s (reject env limits event x s decision request outcome error c k)
  unfolding reject
  reject-Acted s decision request outcome error c k e room h =
      Triple-bind (λ row w. InLoop limits x (with_step s row) w.db)
        (persist_rejected_step-InLoop env limits event x s decision request outcome e room)
        λ row.
          Triple-if (ltb limits.repair_attempts (s.repair_count + 1)) _ _
            (λ over. Triple-raise _ (λ w h'. h'.audited))
            λ left.
              Triple-mono
                (λ w h'. same-InLoop env limits event x (with_step s row) _ w.db refl refl h')
                (λ a w q. q) (λ err w r. r) (h (rejected_state env limits event x s row error))

  pub go_on-Acted : (s : LoopState) → Acted s (pure (again s))
  go_on-Acted s = Triple-pure (again s) (λ w h. h)

  go_on_running-Acted : (s : LoopState) → Acted s (go_on_running env limits event x s)
  go_on_running-Acted s =
      Triple-bind (λ a w. InLoop limits x s w.db)
        (Kept-Audited env limits event x s
          (set_status-Kept env limits event x s AgentStatus.running))
        (λ a. go_on-Acted s)

  tool_once :
      (s : LoopState) (name : String)
      → repeated_retrieval s name ≡ false
      → retrieval_count s.steps ≤ 1
      → (if str_eq name "retrieve_runbooks" then 1 else 0) + retrieval_count s.steps ≤ 1
  tool_once s name h once = ground (arith, count_none (succeeded_with "retrieve_runbooks") s.steps)

  -- A succeeded call extends the trail: a call is left, and the runbooks were not searched before.
  tool-Extends :
      (s : LoopState) (decision : PlannerDecision) (request : ToolRequest) (result : ToolResult)
      → length s.steps < limits.max_steps
      → s.tool_calls < limits.max_tool_calls
      → repeated_retrieval s request.tool_name ≡ false
      → Facts env limits event x s
      → Extends limits x s (tool_step env x (length s.steps + 1) decision request result)
  unfolding tool_step
  tool-Extends s decision request result room calls once f = record {
    mine = refl;
    next = refl;
    room = room;
    tools = omega (arith, f.calls, calls);
    once = tool_once s _ once f.once;
  }

  tool-Counts :
      (n now : ℕ) (decision : PlannerDecision) (request : ToolRequest) (result : ToolResult)
      → Counts
          (tool_step env x n decision request result)
          (count_tool_step env n request result now)
  unfolding tool_step count_tool_step
  tool-Counts n now decision request result = record {
    key = λ r. refl;
    steps = λ r. refl;
    calls = λ r. refl;
  }

  tool_calls_count :
      (s : LoopState) (n : ℕ) (decision : PlannerDecision) (request : ToolRequest)
      (result : ToolResult)
      → s.tool_calls + 1
        ≡ s.tool_calls + succeeded_count (tool_step env x n decision request result ∷ [])
  unfolding tool_step
  tool_calls_count s n decision request result = refl

  persist_tool_step-InLoop :
      (s : LoopState) (decision : PlannerDecision) (request : ToolRequest) (result : ToolResult)
      (sig : Text)
      → length s.steps < limits.max_steps
      → s.tool_calls < limits.max_tool_calls
      → repeated_retrieval s request.tool_name ≡ false
      → Db-Triple
          (InLoop limits x s)
          (persist_tool_step env x (length s.steps + 1) decision request result)
          (λ row db. InLoop limits x (succeeded_state env limits event x s sig row result) db)
          (Audited limits)
  unfolding persist_tool_step
  persist_tool_step-InLoop s decision request result sig room calls once =
      knowing env limits event x s _ λ f.
        Triple-bind (λ a w. InLoop limits x s w.db)
          (Triple-ask (InLoop limits x s) (Audited limits) env.now)
          λ now.
            Triple-mono (λ w h. h)
              (λ row w h.
                stepped env limits event x s _ row _ w.db refl
                  (tool_calls_count s _ decision request result) f h)
              (λ err w h. h)
              (step_session-Added env limits event x s _ _
                (tool-Counts (length s.steps + 1) now decision request result)
                (tool-Extends s decision request result room calls once f))

  -- What an attempt of the executor leaves.
  abbrev Executed : LoopState → Result Failure ToolResult → World → Type 0
  Executed s =
      Attempted (λ a w. InLoop limits x s w.db × (s.tool_calls < limits.max_tool_calls))
        (λ e w. InLoop limits x s w.db)

  after_tool-Acted :
      (s : LoopState) (decision : PlannerDecision) (request : ToolRequest) (sig : Text)
      (r : Result Failure ToolResult)
      → length s.steps < limits.max_steps
      → repeated_retrieval s request.tool_name ≡ false
      → Triple
          (Executed s r)
          (after_tool env limits event x s decision request sig r)
          (λ a w. Next-InLoop env limits event x a w.db)
          (λ e w. Audited limits w.db)
  unfolding after_tool
  after_tool-Acted s decision request sig (ok result) room once = Triple-given λ calls.
      Triple-bind
        (λ row w. InLoop limits x (succeeded_state env limits event x s sig row result) w.db)
        (persist_tool_step-InLoop s decision request result sig room calls once)
        λ row. Triple-pure _ (λ w h. h)
  after_tool-Acted s decision request sig (err e) room once =
      Triple-if (is_rejection e) _ _
        (λ rejected.
          reject-Acted s decision (some request) _ _ _ (go_on_running env limits event x) refl room
            go_on_running-Acted)
        (λ other. Triple-raise e (λ w h. h.audited))

  fresh_retrieval :
      (s : LoopState) (sig : Text) (name : String)
      → is_repeated limits s sig name ≡ false
      → repeated_retrieval s name ≡ false
  fresh_retrieval s sig name h = ground arith

  pub call_tool-Acted :
      (s : LoopState) (decision : PlannerDecision) (request : ToolRequest)
      → length s.steps < limits.max_steps
      → Acted s (call_tool env limits event x s decision request)
  unfolding call_tool
  call_tool-Acted s decision request room =
      let sig = signature env request.tool_name (object request.arguments) in
      Triple-if (is_repeated limits s sig request.tool_name) _ _
        (λ repeated. reject-Acted s decision (some request) _ _ _ _ refl room go_on-Acted)
        (λ fresh.
          Triple-bind (λ a w. InLoop limits x s w.db)
            (Kept-Audited env limits event x s
              (set_status-Kept env limits event x s AgentStatus.waiting_for_tool))
            λ a.
              Triple-bind (Executed s)
                (Triple-attempt
                  (execute-Kept env limits event x s request (context_of env limits event x s)))
                (λ r.
                  after_tool-Acted s decision request sig r room
                    (fresh_retrieval s sig request.tool_name fresh)))

  pub act_tool-Acted :
      (s : LoopState) (decision : PlannerDecision)
      → length s.steps < limits.max_steps
      → Acted s (act_tool env limits event x s decision)
  unfolding act_tool
  act_tool-Acted s decision room =
      Triple-bind (λ a w. InLoop limits x s w.db)
        (Kept-Audited env limits event x s
          (Kept-lift env limits event x s (make_request env limits event x decision)))
        λ request. call_tool-Acted s decision request room
