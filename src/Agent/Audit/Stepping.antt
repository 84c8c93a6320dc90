-- ===== src/Agent/Audit/Stepping.antt =====
-- Adding a step keeps the audit trails: what the loop's state knows of its trail, and the step
-- that records a rejected request.
use mathlib.Core.Option
use ai_support_engineering_p.Agent.Acting.{Next, again, finished, with_step}
use ai_support_engineering_p.Agent.Audit.{Audited, retrieval_count, steps_of, succeeded_count}
use ai_support_engineering_p.Agent.Audit.Rounds.{step_session-Added}
use ai_support_engineering_p.Agent.Audit.Writes.{Added, Counts, Extends, InLoop}
use ai_support_engineering_p.Agent.Env.{Env, M}
use ai_support_engineering_p.Agent.Env.Rules.{Db-Triple, Triple-ask}
use ai_support_engineering_p.Agent.Evidence.{has_called, is_succeeded}
use ai_support_engineering_p.Agent.Models.{
  AgentLimits, IncidentCreatedEvent, PlannerDecision, ToolRequest,
}
use ai_support_engineering_p.Agent.Planning.{LoopState}
use ai_support_engineering_p.Agent.Steps.{count_rejected_step, persist_rejected_step, rejected_step}
use ai_support_engineering_p.Agent.Tables.{find_execution, find_resolution}
use ai_support_engineering_p.Common.{
  Option, String, [], ap, arith, count-snoc, false, length, refl, some, sym, true, ℕ, ◌++◌, ◌+◌,
  ◌<◌, ◌∙◌, ◌∷◌, ◌≡◌, ◌≤◌,
}
use ai_support_engineering_p.Common.Exec.Triple.{Triple-bind, Triple-given, Triple-mono}
use ai_support_engineering_p.Db.{AiResolutionStatus, AgentStatus, AgentStepRecord, Db, StepOutcome}

module _ (env : Env) (limits : AgentLimits) (event : IncidentCreatedEvent) (x : String) where
  -- The database after a run that has completed: both required tools have succeeded, and the
  -- execution awaits review with a completed resolution.
  pub record Completed (db : Db) : Type 0 where
    pub audited : Audited limits db
    pub incident_evidence : has_called "get_incident" (steps_of x db) ≡ true
    pub runbook_evidence : has_called "retrieve_runbooks" (steps_of x db) ≡ true
    pub reviewed :
        Option.map (λ r. r.status) (find_execution x db) ≡ some AgentStatus.awaiting_review
    pub resolved :
        Option.map (λ r. r.status) (find_resolution event.incident_id db)
        ≡ some AiResolutionStatus.completed

  -- After a round the database fits the state that the next round begins with.
  abbrev pub Next-InLoop : Next → Db → Type 0
  Next-InLoop finished db = Completed db
  Next-InLoop (again s) db = InLoop limits x s db

  -- What the trail of `x` says of the steps in hand.
  pub record Facts (s : LoopState) : Type 0 where
    pub tools : succeeded_count s.steps ≤ limits.max_tool_calls
    pub once : retrieval_count s.steps ≤ 1
    pub calls : s.tool_calls ≡ succeeded_count s.steps

  pub Facts-of : (s : LoopState) (db : Db) → InLoop limits x s db → Facts s
  Facts-of s db h = record {
    tools = rw (← h.stored) (h.audited.trail x).tool_budget;
    once = rw (← h.stored) (h.audited.trail x).one_retrieval;
    calls = h.calls;
  }

  pub knowing :
      (s : LoopState) {A : Type 0} {m : M A} (Q : A → Db → Type 0)
      → (Facts s → Db-Triple (InLoop limits x s) m Q (Audited limits))
      → Db-Triple (InLoop limits x s) m Q (Audited limits)
  knowing s Q h =
      Triple-mono (λ w p. (p, Facts-of s w.db p)) (λ a w q. q) (λ e w r. r) (Triple-given h)

  -- A state that differs in what the trails do not show.
  pub same-InLoop :
      (s s' : LoopState) (db : Db)
      → s'.steps ≡ s.steps
      → s'.tool_calls ≡ s.tool_calls
      → InLoop limits x s db
      → InLoop limits x s' db
  same-InLoop s s' db e c h = record {
    audited = h.audited;
    stored = h.stored ∙ sym e;
    calls = c ∙ h.calls ∙ ap succeeded_count (sym e);
  }

  -- A step that was rejected may always extend a trail with room.
  rejected-Extends :
      (s : LoopState) (decision : PlannerDecision) (request : Option ToolRequest)
      (outcome : StepOutcome)
      → is_succeeded outcome ≡ false
      → length s.steps < limits.max_steps
      → Facts s
      → Extends limits x s (rejected_step env x (length s.steps + 1) decision request outcome)
  unfolding rejected_step
  rejected-Extends s decision request outcome e room f = record {
    mine = refl;
    next = refl;
    room = room;
    tools = rw e (omega (arith, f.tools));
    once = rw e (omega (arith, f.once));
  }

  rejected-Counts :
      (n now : ℕ) (decision : PlannerDecision) (request : Option ToolRequest)
      (outcome : StepOutcome)
      → is_succeeded outcome ≡ false
      → Counts (rejected_step env x n decision request outcome) (count_rejected_step env n now)
  unfolding rejected_step
  rejected-Counts n now decision request outcome e = record {
    key = λ r. refl;
    steps = λ r. refl;
    calls = λ r. rw e (omega arith);
  }

  Added-InLoop :
      (s s' : LoopState) (row : AgentStepRecord) (db : Db)
      → s'.steps ≡ s.steps ++ row ∷ []
      → s'.tool_calls ≡ s.tool_calls + succeeded_count (row ∷ [])
      → Facts s
      → Added limits x s row db
      → InLoop limits x s' db
  Added-InLoop s s' row db e c f a = record {
    audited = a.audited;
    stored = a.stored ∙ sym e;
    calls = rw e (omega (arith, c, f.calls, count-snoc (λ r. is_succeeded r.outcome) s.steps row));
  }

  -- The state after a session that added the row `own` and returned it as `row`.
  pub stepped :
      (s s' : LoopState) (row own : AgentStepRecord) (db : Db)
      → s'.steps ≡ s.steps ++ row ∷ []
      → s'.tool_calls ≡ s.tool_calls + succeeded_count (own ∷ [])
      → Facts s
      → (row ≡ own) × Added limits x s own db
      → InLoop limits x s' db
  stepped s s' row own db e c f h =
      Added-InLoop s s' own db (e ∙ ap (λ r. s.steps ++ r ∷ []) h.0) c f h.1

  rejected_calls :
      (s : LoopState) (n : ℕ) (decision : PlannerDecision) (request : Option ToolRequest)
      (outcome : StepOutcome)
      → is_succeeded outcome ≡ false
      → s.tool_calls
        ≡ s.tool_calls + succeeded_count (rejected_step env x n decision request outcome ∷ [])
  unfolding rejected_step
  rejected_calls s n decision request outcome e = rw e (omega arith)

  pub persist_rejected_step-InLoop :
      (s : LoopState) (decision : PlannerDecision) (request : Option ToolRequest)
      (outcome : StepOutcome)
      → is_succeeded outcome ≡ false
      → length s.steps < limits.max_steps
      → Db-Triple
          (InLoop limits x s)
          (persist_rejected_step env x (length s.steps + 1) decision request outcome)
          (λ row db. InLoop limits x (with_step s row) db)
          (Audited limits)
  unfolding persist_rejected_step
  persist_rejected_step-InLoop s decision request outcome e room = knowing s _ λ f.
      Triple-bind (λ a w. InLoop limits x s w.db)
        (Triple-ask (InLoop limits x s) (Audited limits) env.now)
        λ now.
          Triple-mono (λ w h. h)
            (λ row w h.
              stepped s _ row _ w.db refl (rejected_calls s _ decision request outcome e) f h)
            (λ err w h. h)
            (step_session-Added env limits event x s _ _
              (rejected-Counts (length s.steps + 1) now decision request outcome e)
              (rejected-Extends s decision request outcome e room f))
