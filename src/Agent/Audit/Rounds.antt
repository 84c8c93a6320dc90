-- ===== src/Agent/Audit/Rounds.antt =====
-- The methods of a round keep the audit trails, whether they return or raise.
use ai_support_engineering_p.Agent.Audit.{Audited, Keeps}
use ai_support_engineering_p.Agent.Audit.Writes.{
  Added, Counts, Extends, InLoop, set_execution-InLoop, with_row-Added,
}
use ai_support_engineering_p.Agent.Env.{Env, M, ToolInput, ask, transaction}
use ai_support_engineering_p.Agent.Env.Rules.{
  Committed, Db-Triple, Triple-ask, Triple-lift, Triple-transaction,
}
use ai_support_engineering_p.Agent.Failing.{check_budgets, check_execution, set_status}
use ai_support_engineering_p.Agent.Failure.{Failure}
use ai_support_engineering_p.Agent.Models.{AgentLimits, IncidentCreatedEvent, ToolRequest}
use ai_support_engineering_p.Agent.Planning.{LoopState}
use ai_support_engineering_p.Agent.Steps.{
  count_model_call, model_call, model_session, step_session, with_counts,
}
use ai_support_engineering_p.Agent.Tables.{add_step, find_execution, same_step, set_execution}
use ai_support_engineering_p.Agent.Tools.{ToolContext, execute, validate}
use ai_support_engineering_p.Common.{
  Bool-cases, Option-cases, String, Text, any, arith, inl, inr, leb, leb-false→lt, length, refl,
  some, ℕ, ◌+◌, ◌<◌, ◌≡◌,
}
use ai_support_engineering_p.Common.Exec.{Result, lift, ok, ◌>>=◌}
use ai_support_engineering_p.Common.Exec.Triple.{
  Triple-bind, Triple-given, Triple-if, Triple-mono, Triple-raise,
}
use ai_support_engineering_p.Db.{AgentExecutionRecord, AgentStatus, AgentStepRecord, Db}
use ai_support_engineering_p.Db.Json.{Value}

module _ (env : Env) (limits : AgentLimits) (event : IncidentCreatedEvent) (x : String) where
  abbrev pub Kept : LoopState → {A : Type 0} → M A → Type 0
  Kept s m = Db-Triple (InLoop limits x s) m (λ a. InLoop limits x s) (InLoop limits x s)

  pub Kept-Audited :
      (s : LoopState) {A : Type 0} {m : M A}
      → Kept s m
      → Db-Triple (InLoop limits x s) m (λ a. InLoop limits x s) (Audited limits)
  Kept-Audited s = Triple-mono (λ w h. h) (λ a w h. h) (λ e w h. h.audited)

  pub audit : (s : LoopState) (db : Db) → InLoop limits x s db → Audited limits db
  audit s db h = h.audited

  pub Kept-ask : (s : LoopState) {A : Type 0} (f : ℕ → A) → Kept s (ask f)
  Kept-ask s f = Triple-ask (InLoop limits x s) (InLoop limits x s) f

  -- Writes that the trails do not show: a status, an account of a model call, a failure.
  kept_write :
      (s : LoopState) (f : AgentExecutionRecord → AgentExecutionRecord) (db : Db)
      → Keeps f
      → InLoop limits x s db
      → InLoop limits x s (set_execution x f db)
  kept_write s f db k h = set_execution-InLoop limits x s f db k h

  pub set_status-Kept : (s : LoopState) (status : AgentStatus) → Kept s (set_status env x status)
  unfolding set_status
  set_status-Kept s status =
      Triple-bind (λ now w. InLoop limits x s w.db) (Kept-ask s env.now)
        λ now.
          Triple-transaction (InLoop limits x s) _ (InLoop limits x s) env _ (λ db h. h)
            λ db h. elim (Option-cases (find_execution x db)) [
              | inl e ↦ rw e tt
              | inr (r, e) ↦
                  rw e (kept_write s _ db (record { key = λ r. refl; counts = λ r. refl }) h)
            ]

  model_session-Kept :
      (s : LoopState) (duration prompt output : ℕ) (usage : Value) (now : ℕ)
      → Kept s (
          transaction env
            (model_session env x (count_model_call env duration prompt output usage now)))
  unfolding model_session count_model_call
  model_session-Kept s duration prompt output usage now =
      Triple-transaction (InLoop limits x s) _ (InLoop limits x s) env _ (λ db h. h)
        λ db h. elim (Option-cases (find_execution x db)) [
          | inl e ↦ rw (e, model_session) h
          | inr (r, e) ↦
              rw (e, model_session)
                (kept_write s _ db (record { key = λ r. refl; counts = λ r. refl }) h)
        ]

  -- A method that returns a value read from outside.
  pub Kept-lift : (s : LoopState) {A : Type 0} (r : Result Failure A) → Kept s (lift r)
  Kept-lift s r =
      Triple-mono (λ w h. h) (λ a w h. h.0) (λ e w h. h)
        (Triple-lift (InLoop limits x s) (InLoop limits x s) (λ a. Unit) r (λ db h. h) (λ a e. tt))

  pub Kept-bind :
      (s : LoopState) {A B : Type 0} {m : M A} {f : A → M B}
      → Kept s m
      → ((a : A) → Kept s (f a))
      → Kept s (m >>= f)
  Kept-bind s = Triple-bind (λ a w. InLoop limits x s w.db)

  pub model_call-Kept :
      (s : LoopState) {A : Type 0} (generate : ℕ → Text → Result Failure (A × ℕ)) (prompt : Text)
      → Kept s (model_call env x generate prompt)
  unfolding model_call
  model_call-Kept s generate prompt = Kept-bind s (Kept-ask s _) λ started.
      Kept-bind s (Kept-ask s _) λ response. Kept-bind s (Kept-ask s _) λ finished.
        Kept-bind s (Kept-ask s _) λ usage.
          Kept-bind s (Kept-ask s _)
            λ now. Kept-bind s (model_session-Kept s _ _ _ _ now) (λ a. Kept-lift s _)

  -- The budgets are read, and where they are not used up there is room for a step.
  pub check_budgets-Kept :
      (s : LoopState) (started : ℕ)
      → Db-Triple
          (InLoop limits x s)
          (check_budgets env limits x started (length s.steps))
          (λ a db. InLoop limits x s db × (length s.steps < limits.max_steps))
          (Audited limits)
  unfolding check_budgets check_execution
  check_budgets-Kept s started =
      Triple-if (leb limits.max_steps (length s.steps)) _ _
        (λ over. Triple-raise _ (λ w h. h.audited))
        λ within.
          Triple-bind (λ a w. InLoop limits x s w.db)
            (Triple-ask (InLoop limits x s) (Audited limits) env.perf_counter)
            λ elapsed.
              Triple-if (leb (started + limits.max_duration) elapsed) _ _
                (λ late. Triple-raise _ (λ w h. h.audited))
                λ early.
                  Triple-bind (λ a w. InLoop limits x s w.db)
                    (Triple-ask (InLoop limits x s) (Audited limits) env.now)
                    λ now.
                      Triple-transaction (InLoop limits x s) _ (Audited limits) env _ (audit s)
                        λ db h. ground (arith, h, leb-false→lt _ _ within)

  -- A tool returns a result only while calls are left, and changes no row.
  validate_room :
      (request : ToolRequest) (context : ToolContext) (calls : ℕ) (input : ToolInput)
      → validate env limits.max_tool_calls request context calls ≡ ok input
      → calls < limits.max_tool_calls
  unfolding validate
  validate_room request context calls input h = ground arith

  pub execute-Kept :
      (s : LoopState) (request : ToolRequest) (context : ToolContext)
      → Db-Triple
          (InLoop limits x s)
          (execute env limits.max_tool_calls request context s.tool_calls)
          (λ a db. InLoop limits x s db × (s.tool_calls < limits.max_tool_calls))
          (InLoop limits x s)
  unfolding execute
  execute-Kept s request context =
      Triple-bind (λ a w. InLoop limits x s w.db × (s.tool_calls < limits.max_tool_calls))
        (Triple-lift (InLoop limits x s) (InLoop limits x s) _ _ (λ db h. h)
          (validate_room request context s.tool_calls))
        λ input. Triple-given λ room.
          Triple-mono (λ w h. h) (λ a w h. (h, room)) (λ e w h. h)
            (Kept-bind s (Kept-ask s env.perf_counter) λ started.
              Kept-bind s (Kept-ask s _)
                λ output. Kept-bind s (Kept-ask s env.perf_counter) λ finished. Kept-lift s _)

  -- A session that adds a step.
  abbrev AddsTo : LoopState → AgentStepRecord → Db → Type 0
  AddsTo s row db = Added limits x s row db

  add_step-Added :
      (s : LoopState) (row : AgentStepRecord) (r : AgentExecutionRecord)
      (f : AgentExecutionRecord → AgentExecutionRecord) (db : Db)
      → Counts row f
      → Extends limits x s row
      → find_execution row.execution_id db ≡ some r
      → InLoop limits x s db
      → Committed
          (λ row' db'. (row' ≡ row) × Added limits x s row db')
          (with_counts env row f (add_step row db))
  unfolding add_step
  add_step-Added s row r f db c e found h = elim (Bool-cases (any (same_step row) db.steps)) [
    | inl clash ↦ rw (clash, add_step) tt
    | inr fresh ↦ rw (fresh, add_step) (refl, with_row-Added limits x s row r f db c e found h)
  ]

  pub step_session-Added :
      (s : LoopState) (row : AgentStepRecord) (f : AgentExecutionRecord → AgentExecutionRecord)
      → Counts row f
      → Extends limits x s row
      → Db-Triple
          (InLoop limits x s)
          (transaction env (step_session env row f))
          (λ row' db. (row' ≡ row) × Added limits x s row db)
          (Audited limits)
  unfolding step_session
  step_session-Added s row f c e =
      Triple-transaction (InLoop limits x s) _ (Audited limits) env _ (audit s) λ db h.
        elim (Option-cases (find_execution row.execution_id db)) [
          | inl missing ↦ rw (missing, step_session) tt
          | inr (r, found) ↦ rw (found, step_session) (add_step-Added s row r f db c e found h)
        ]
