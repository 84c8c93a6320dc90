-- ===== src/Agent/Audit/Kept.antt =====
-- The loop of `_resolve` keeps the audit trails, from the steps that it restores to its end.
use ai_support_engineering_p.Agent.Acting.{act_final, act_on, act_tool, again}
use ai_support_engineering_p.Agent.Audit.{Audited}
use ai_support_engineering_p.Agent.Audit.Acts.{Acted, act_tool-Acted, go_on-Acted, reject-Acted}
use ai_support_engineering_p.Agent.Audit.Completing.{conclude-Completed}
use ai_support_engineering_p.Agent.Audit.Concluding.{Kept-attempt}
use ai_support_engineering_p.Agent.Audit.Rounds.{
  Kept, check_budgets-Kept, Kept-Audited, Kept-bind, model_call-Kept,
}
use ai_support_engineering_p.Agent.Audit.Stepping.{Next-InLoop, same-InLoop}
use ai_support_engineering_p.Agent.Audit.Writes.{InLoop}
use ai_support_engineering_p.Agent.Env.{Env}
use ai_support_engineering_p.Agent.Env.Rules.{Db-Triple}
use ai_support_engineering_p.Agent.Evidence.{has_called, missing_required_evidence}
use ai_support_engineering_p.Agent.Failure.{Failure, is_response_error, is_structured_output}
use ai_support_engineering_p.Agent.Loop.{iterate}
use ai_support_engineering_p.Agent.Models.{AgentLimits, IncidentCreatedEvent, PlannerDecision}
use ai_support_engineering_p.Agent.Planning.{LoopState, Planned, plan, plan_turn, planned, repair}
use ai_support_engineering_p.Common.{
  List, Option, String, Text, arith, is_empty, is_some, length, ltb, none, not, refl, some, true, ℕ,
  ◌+◌, ◌<◌, ◌||◌, ◌≡◌,
}
use ai_support_engineering_p.Common.Exec.{Result, err, ok}
use ai_support_engineering_p.Common.Exec.Triple.{
  Triple-bind, Triple-given, Triple-if, Triple-pure, Triple-raise,
}
use ai_support_engineering_p.Db.{AgentStepRecord, Db, NextAction}
use text.Mathlib.Text.{◌==◌ as str_eq}

gathered_evidence :
    (steps : List AgentStepRecord)
    → is_empty (missing_required_evidence steps) ≡ true
    → (has_called "get_incident" steps ≡ true) × (has_called "retrieve_runbooks" steps ≡ true)
unfolding missing_required_evidence
gathered_evidence steps h = ground arith

module _ (env : Env) (limits : AgentLimits) (event : IncidentCreatedEvent) (x : String) where
  act_final-Acted :
      (s : LoopState) (decision : PlannerDecision)
      → length s.steps < limits.max_steps
      → Acted env limits event x s (act_final env limits event x s decision)
  unfolding act_final
  act_final-Acted s decision room =
      Triple-if (is_empty (missing_required_evidence s.steps)) _ _
        (λ gathered.
          let evidence = gathered_evidence s.steps gathered in
          conclude-Completed env limits event x s decision room evidence.0 evidence.1)
        (λ missing.
          reject-Acted env limits event x s decision none _ _ _ _ refl room
            (go_on-Acted env limits event x))

  -- The database after the planner's turn, where there is room for a step.
  abbrev Planned-InLoop : Planned → Db → Type 0
  Planned-InLoop (Planned.act s decision) db =
      InLoop limits x s db × (length s.steps < limits.max_steps)
  Planned-InLoop (Planned.replan s) db = InLoop limits x s db

  decided-Acted :
      (s : LoopState) (decision : PlannerDecision)
      → length s.steps < limits.max_steps
      → Acted env limits event x s (act_on env limits event x (Planned.act s decision))
  unfolding act_on
  decided-Acted s decision room =
      elim decision.next_action
        as (λ a. Acted env limits event x s (elim a [
          | NextAction.tool ↦ act_tool env limits event x s decision
          | NextAction.final ↦ act_final env limits event x s decision
        ])) [
          | NextAction.tool ↦ act_tool-Acted env limits event x s decision room
          | NextAction.final ↦ act_final-Acted s decision room
        ]

  act_on-Acted :
      (turn : Planned)
      → Db-Triple
          (Planned-InLoop turn)
          (act_on env limits event x turn)
          (Next-InLoop env limits event x)
          (Audited limits)
  unfolding act_on
  act_on-Acted (Planned.act s decision) = Triple-given (decided-Acted s decision)
  act_on-Acted (Planned.replan s) = Triple-pure (again s) (λ w h. h)

  plan-Kept :
      (s : LoopState) (prompt : Text) (required : Option String)
      → Kept env limits event x s (plan env limits event x prompt required)
  unfolding plan
  plan-Kept s prompt none = model_call-Kept env limits event x s _ prompt
  plan-Kept s prompt (some name) =
      Triple-if (str_eq name "get_incident") _ _
        (λ a.
          Kept-bind env limits event x s (model_call-Kept env limits event x s _ prompt)
            λ raw. Triple-pure _ (λ w h. h))
        λ b.
          Triple-if (str_eq name "retrieve_runbooks") _ _
            (λ a.
              Kept-bind env limits event x s (model_call-Kept env limits event x s _ prompt)
                λ raw. Triple-pure _ (λ w h. h))
            λ c. model_call-Kept env limits event x s _ prompt

  -- With room for a step, the planner's answer leads on from the same trail.
  planned-InLoop :
      (s : LoopState) (required : Option String) (r : Result Failure PlannerDecision)
      → length s.steps < limits.max_steps
      → Db-Triple
          (InLoop limits x s)
          (planned env limits event x s required r)
          Planned-InLoop
          (Audited limits)
  unfolding planned repair
  planned-InLoop s required (ok decision) room = Triple-pure _ (λ w h. (h, room))
  planned-InLoop s required (err e) room =
      Triple-if (is_response_error e) _ _
        (λ response.
          Triple-if (ltb limits.repair_attempts (s.repair_count + 1)) _ _
            (λ over.
              Triple-if (is_some required || not (is_structured_output e)) _ _
                (λ stop. Triple-raise _ (λ w h. h.audited))
                (λ fall_back.
                  Triple-pure _
                    (λ w h. (same-InLoop env limits event x s _ w.db refl refl h, room))))
            (λ left. Triple-pure _ (λ w h. same-InLoop env limits event x s _ w.db refl refl h)))
        (λ other. Triple-raise e (λ w h. h.audited))

  pub iterate-Acted :
      (started : ℕ) (s : LoopState)
      → Acted env limits event x s (iterate env limits event x started s)
  unfolding iterate plan_turn
  iterate-Acted started s =
      Triple-bind (λ a w. InLoop limits x s w.db × (length s.steps < limits.max_steps))
        (check_budgets-Kept env limits event x s started)
        λ a. Triple-given λ room.
          Triple-bind (λ turn w. Planned-InLoop turn w.db)
            (Triple-bind (λ r w. InLoop limits x s w.db)
              (Kept-Audited env limits event x s
                (Kept-attempt env limits event x s (plan-Kept s _ _)))
              (λ r. planned-InLoop s _ r room))
            act_on-Acted
