-- ===== src/Agent/Audit/Completing.antt =====
-- The final step completes an execution with sound audit trails.
use ai_support_engineering_p.Agent.Acting.{conclude, finished}
use ai_support_engineering_p.Agent.Audit.{Audited}
use ai_support_engineering_p.Agent.Audit.Concluding.{generate_final-Kept}
use ai_support_engineering_p.Agent.Audit.Rounds.{Kept-Audited}
use ai_support_engineering_p.Agent.Audit.Stepping.{Completed, Facts, Next-InLoop, knowing}
use ai_support_engineering_p.Agent.Audit.Writes.{
  Added, Counts, Extends, InLoop, with_row, with_row-Added,
}
use ai_support_engineering_p.Agent.Env.{Env}
use ai_support_engineering_p.Agent.Env.Rules.{Committed, Db-Triple, Triple-ask, Triple-transaction}
use ai_support_engineering_p.Agent.Evidence.{has_called, succeeded_with}
use ai_support_engineering_p.Agent.Final.{
  complete_execution, complete_resolution, complete_rows, final_session, final_step, persist_final,
}
use ai_support_engineering_p.Agent.Models.{
  AgentFinalResponse, AgentLimits, IncidentCreatedEvent, PlannerDecision, ToolResult,
}
use ai_support_engineering_p.Agent.Planning.{LoopState}
use ai_support_engineering_p.Agent.Tables.{
  add_step, by_execution, find_execution, find_resolution, of_incident, same_step, set_execution,
  set_resolution,
}
use ai_support_engineering_p.Common.{
  Bool-cases, List, Option-cases, String, [], any, any-snoc, arith, find-modify, inl, inr, length,
  refl, some, true, ℕ, ◌++◌, ◌+◌, ◌<◌, ◌∷◌, ◌≡◌,
}
use ai_support_engineering_p.Common.Exec.Triple.{Triple-bind, Triple-pure}
use ai_support_engineering_p.Db.{AiResolutionRecord, AgentExecutionRecord, AgentStepRecord, Db}

module _ (env : Env) (limits : AgentLimits) (event : IncidentCreatedEvent) (x : String) where
  final-Extends :
      (s : LoopState) (decision : PlannerDecision) (final : AgentFinalResponse)
      → length s.steps < limits.max_steps
      → Facts env limits event x s
      → Extends limits x s (final_step env x (length s.steps + 1) decision final s.results)
  unfolding final_step
  final-Extends s decision final room f = record {
    mine = refl;
    next = refl;
    room = room;
    tools = omega (arith, f.tools);
    once = omega (arith, f.once);
  }

  final-Counts :
      (s : LoopState) (n now : ℕ) (decision : PlannerDecision) (final : AgentFinalResponse)
      → Counts (final_step env x n decision final s.results) (complete_execution env n now)
  unfolding final_step complete_execution
  final-Counts s n now decision final = record {
    key = λ r. refl;
    steps = λ r. refl;
    calls = λ r. omega arith;
  }

  abbrev completed_rows :
      ℕ → ℕ → AgentStepRecord → AgentFinalResponse → List (ℕ × ToolResult) → Db → Db
  completed_rows incident now row final results db =
      set_resolution incident (complete_resolution env final results now) (
        set_execution row.execution_id (complete_execution env row.step_number now)
          (record db { steps = db.steps ++ row ∷ [] }))

  still_called :
      (name : String) (steps : List AgentStepRecord) (row : AgentStepRecord)
      → has_called name steps ≡ true
      → has_called name (steps ++ row ∷ []) ≡ true
  still_called name steps row h = rw (any-snoc (succeeded_with name) steps row, h) refl

  called :
      (name : String) (s : LoopState) (row : AgentStepRecord) (steps : List AgentStepRecord)
      → steps ≡ s.steps ++ row ∷ []
      → has_called name s.steps ≡ true
      → has_called name steps ≡ true
  called name s row steps e h = rw e (still_called name s.steps row h)

  completed_rows-Completed :
      (s : LoopState) (now : ℕ) (row : AgentStepRecord) (final : AgentFinalResponse)
      (r : AgentExecutionRecord) (q : AiResolutionRecord) (db : Db)
      → row.execution_id ≡ x
      → find_execution x db ≡ some r
      → find_resolution event.incident_id db ≡ some q
      → has_called "get_incident" s.steps ≡ true
      → has_called "retrieve_runbooks" s.steps ≡ true
      → Added limits x s row (with_row limits x row (complete_execution env row.step_number now) db)
      → Completed env limits event x (completed_rows event.incident_id now row final s.results db)
  unfolding complete_execution complete_resolution
  completed_rows-Completed s now row final r q db mine found held incident runbooks a = record {
    audited = record { trail = a.audited.trail };
    incident_evidence = called "get_incident" s row _ a.stored incident;
    runbook_evidence = called "retrieve_runbooks" s row _ a.stored runbooks;
    reviewed =
        rw
          (
            mine,
            find-modify (by_execution x) (complete_execution env row.step_number now) db.executions
                (λ r. refl),
            found,
          )
          refl;
    resolved =
        rw
          (
            find-modify (of_incident event.incident_id)
                (complete_resolution env final s.results now) db.resolutions (λ r. refl),
            held,
          )
          refl;
  }

  -- The write to the resolution does not show in the trails.
  complete_rows-Completed :
      (s : LoopState) (now : ℕ) (row : AgentStepRecord) (final : AgentFinalResponse)
      (r : AgentExecutionRecord) (q : AiResolutionRecord) (db : Db)
      → Counts row (complete_execution env row.step_number now)
      → Extends limits x s row
      → find_execution row.execution_id db ≡ some r
      → find_resolution event.incident_id db ≡ some q
      → has_called "get_incident" s.steps ≡ true
      → has_called "retrieve_runbooks" s.steps ≡ true
      → InLoop limits x s db
      → Committed
          (λ a. Completed env limits event x)
          (complete_rows env event.incident_id row final s.results now (add_step row db))
  unfolding add_step
  complete_rows-Completed s now row final r q db c e found held incident runbooks h =
      elim (Bool-cases (any (same_step row) db.steps)) [
        | inl clash ↦ rw (clash, add_step) tt
        | inr fresh ↦
            rw (fresh, add_step)
              (completed_rows-Completed s now row final r q db e.mine (rw (← e.mine) found) held
                incident runbooks
                (with_row-Added limits x s row r (complete_execution env row.step_number now) db c e
                  found h))
      ]

  persist_final-Completed :
      (s : LoopState) (decision : PlannerDecision) (final : AgentFinalResponse)
      → length s.steps < limits.max_steps
      → has_called "get_incident" s.steps ≡ true
      → has_called "retrieve_runbooks" s.steps ≡ true
      → Db-Triple
          (InLoop limits x s)
          (persist_final env x event decision final s.steps s.results)
          (λ a. Completed env limits event x)
          (Audited limits)
  unfolding persist_final final_session final_step
  persist_final-Completed s decision final room incident runbooks =
      knowing env limits event x s _ λ f.
        Triple-bind (λ a w. InLoop limits x s w.db)
          (Triple-ask (InLoop limits x s) (Audited limits) env.now)
          λ now.
            Triple-transaction (InLoop limits x s) _ (Audited limits) env _ (λ db h. h.audited)
              λ db h.
                let row = final_step env x (length s.steps + 1) decision final s.results in
                elim (Option-cases (find_execution row.execution_id db)) [
                  | inl missing ↦ rw (missing, final_session) tt
                  | inr (r, found) ↦ elim (Option-cases (find_resolution event.incident_id db)) [
                    | inl missing ↦ rw (found, final_session, missing) tt
                    | inr (q, held) ↦
                        rw (found, final_session, held)
                          (complete_rows-Completed s now row final r q db
                            (final-Counts s (length s.steps + 1) now decision final)
                            (final-Extends s decision final room f) found held incident runbooks h)
                  ]
                ]

  pub conclude-Completed :
      (s : LoopState) (decision : PlannerDecision)
      → length s.steps < limits.max_steps
      → has_called "get_incident" s.steps ≡ true
      → has_called "retrieve_runbooks" s.steps ≡ true
      → Db-Triple
          (InLoop limits x s)
          (conclude env limits event x s decision)
          (Next-InLoop env limits event x)
          (Audited limits)
  unfolding conclude
  conclude-Completed s decision room incident runbooks =
      Triple-bind (λ a w. InLoop limits x s w.db)
        (Kept-Audited env limits event x s (generate_final-Kept env limits event x s s.results))
        λ final.
          Triple-bind (λ a w. Completed env limits event x w.db)
            (persist_final-Completed s decision final room incident runbooks)
            λ a. Triple-pure finished (λ w h. h)
