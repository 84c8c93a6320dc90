-- ===== src/Agent/Loop/Progress.antt =====
-- What a round of `_resolve` leads to: one step more, or one repair more within the limit.
use ai_support_engineering_p.Agent.Acting.{
  Next, act_final, act_tool, after_tool, again, call_tool, conclude, finished, is_rejection,
  is_repeated, reject,
}
use ai_support_engineering_p.Agent.Env.{Env, M, World}
use ai_support_engineering_p.Agent.Evidence.{missing_required_evidence, signature}
use ai_support_engineering_p.Agent.Failure.{
  Complaint, Failure, is_response_error, is_structured_output,
}
use ai_support_engineering_p.Agent.Models.{
  AgentLimits, IncidentCreatedEvent, PlannerDecision, ToolRequest, ToolResult,
}
use ai_support_engineering_p.Agent.Planning.{LoopState, Planned, plan_turn, planned, repair}
use ai_support_engineering_p.Common.{
  Option, String, Text, arith, is_empty, is_some, length, length-snoc, ltb, ltb-false→le, none, not,
  refl, some, ℕ, ◌+◌, ◌||◌, ◌≡◌, ◌≤◌,
}
use ai_support_engineering_p.Common.Exec.{Result, err, ok, pure, raise}
use ai_support_engineering_p.Common.Exec.Triple.{
  Triple, Triple-any, Triple-bind, Triple-if, Triple-pure, Triple-raise,
}
use ai_support_engineering_p.Db.{StepOutcome}
use ai_support_engineering_p.Db.Json.{object}

module _ (env : Env) (limits : AgentLimits) (event : IncidentCreatedEvent) (x : String) where
  abbrev pub Any : World → Type 0
  Any w = Unit

  abbrev pub Raised : Failure → World → Type 0
  Raised e w = Unit

  -- What a round that acts on a decision leads to, from `n` steps.
  abbrev pub Progress : ℕ → Next → World → Type 0
  Progress n finished w = Unit
  Progress n (again s) w = (length s.steps ≡ n + 1) × (s.repair_count ≤ limits.repair_attempts)

  reject-Progress :
      (s : LoopState) (decision : PlannerDecision) (request : Option ToolRequest)
      (outcome : StepOutcome) (error : Text) (c : Complaint) (k : LoopState → M Next)
      → ((s' : LoopState)
          → length s'.steps ≡ length s.steps + 1
          → s'.repair_count ≤ limits.repair_attempts
          → Triple Any (k s') (Progress (length s.steps)) Raised)
      → Triple Any
          (reject env limits event x s decision request outcome error c k)
          (Progress (length s.steps))
          Raised
  unfolding reject
  reject-Progress s decision request outcome error c k h =
      Triple-bind (λ row w. Unit) (Triple-any (λ a w. tt) (λ e w. tt))
        λ row.
          Triple-if (ltb limits.repair_attempts (s.repair_count + 1)) _ _
            (λ over. Triple-raise _ (λ w h'. tt))
            λ left. h _ (length-snoc s.steps row) (ltb-false→le _ _ left)

  abbrev pub Then : LoopState → M Next → Type 0
  Then s m = Triple Any m (Progress (length s.steps)) Raised

  pub nothing : {A : Type 0} {m : M A} → Triple Any m (λ a w. Unit) Raised
  nothing = Triple-any (λ a w. tt) (λ e w. tt)

  raised : (e : Failure) (s : LoopState) → Then s (raise e)
  raised e s = Triple-raise e (λ w h. tt)

  going_on :
      (s s' : LoopState)
      → length s'.steps ≡ length s.steps + 1
      → s'.repair_count ≤ limits.repair_attempts
      → Then s (pure (again s'))
  going_on s s' e h = Triple-pure (again s') (λ w p. (e, h))

  after_tool-Progress :
      (s : LoopState) (decision : PlannerDecision) (request : ToolRequest) (sig : Text)
      (r : Result Failure ToolResult)
      → Then s (after_tool env limits event x s decision request sig r)
  unfolding after_tool
  after_tool-Progress s decision request sig (ok result) =
      Triple-bind (λ row w. Unit) nothing
        λ row. going_on s _ (length-snoc s.steps row) (omega arith)
  after_tool-Progress s decision request sig (err e) =
      Triple-if (is_rejection e) _ _
        (λ rejected.
          reject-Progress s decision (some request) _ _ _ _
            λ s' l r. Triple-bind (λ a w. Unit) nothing λ a. going_on s s' l r)
        (λ other. raised e s)

  call_tool-Progress :
      (s : LoopState) (decision : PlannerDecision) (request : ToolRequest)
      → Then s (call_tool env limits event x s decision request)
  unfolding call_tool
  call_tool-Progress s decision request =
      Triple-if
        (is_repeated limits s (signature env request.tool_name (object request.arguments))
          request.tool_name)
        _ _ (λ repeated. reject-Progress s decision (some request) _ _ _ _ (going_on s))
        (λ fresh.
          Triple-bind (λ a w. Unit) nothing
            λ a. Triple-bind (λ a w. Unit) nothing (after_tool-Progress s decision request _))

  pub act_tool-Progress :
      (s : LoopState) (decision : PlannerDecision) → Then s (act_tool env limits event x s decision)
  unfolding act_tool
  act_tool-Progress s decision =
      Triple-bind (λ a w. Unit) nothing λ request. call_tool-Progress s decision request

  pub act_final-Progress :
      (s : LoopState) (decision : PlannerDecision)
      → Then s (act_final env limits event x s decision)
  unfolding act_final conclude
  act_final-Progress s decision =
      Triple-if (is_empty (missing_required_evidence s.steps)) _ _
        (λ gathered.
          Triple-bind (λ a w. Unit) nothing
            λ final. Triple-bind (λ a w. Unit) nothing λ a. Triple-pure finished (λ w h. tt))
        (λ missing. reject-Progress s decision none _ _ _ _ (going_on s))

  -- What the planner's turn leads to: `act` keeps the steps, `replan` has used up a repair.
  abbrev pub Turned : LoopState → Planned → World → Type 0
  Turned s (Planned.act s' decision) w = s'.steps ≡ s.steps
  Turned s (Planned.replan s') w =
      (s'.steps ≡ s.steps)
      × (s'.repair_count ≡ s.repair_count + 1)
      × (s'.repair_count ≤ limits.repair_attempts)

  repair-Turned :
      (s : LoopState) (required : Option String) (e : Failure)
      → Triple Any (repair env limits event x s required e) (Turned s) Raised
  unfolding repair
  repair-Turned s required e =
      Triple-if (ltb limits.repair_attempts (s.repair_count + 1)) _ _
        (λ over.
          Triple-if (is_some required || not (is_structured_output e)) _ _
            (λ stop. Triple-raise _ (λ w h. tt)) (λ fall_back. Triple-pure _ (λ w h. refl)))
        (λ left. Triple-pure _ (λ w h. (refl, refl, ltb-false→le _ _ left)))

  planned-Turned :
      (s : LoopState) (required : Option String) (r : Result Failure PlannerDecision)
      → Triple Any (planned env limits event x s required r) (Turned s) Raised
  unfolding planned
  planned-Turned s required (ok decision) = Triple-pure _ (λ w h. refl)
  planned-Turned s required (err e) =
      Triple-if (is_response_error e) _ _ (λ response. repair-Turned s required e)
        (λ other. Triple-raise e (λ w h. tt))

  pub plan_turn-Turned :
      (s : LoopState) → Triple Any (plan_turn env limits event x s) (Turned s) Raised
  unfolding plan_turn
  plan_turn-Turned s = Triple-bind (λ a w. Unit) nothing (planned-Turned s _)
