-- ===== src/Agent/Audit/Writes.antt =====
-- The sessions of the loop keep the audit trails: each adds one step with the next number, or
-- writes nothing that the trails show.
use mathlib.Core.List.{append-nil}
use ai_support_engineering_p.Agent.Audit.{
  Audited, Keeps, Trail, Trail-snoc, counters_of, retrieval_count, set_execution-Audited, steps_of,
  succeeded_count,
}
use ai_support_engineering_p.Agent.Models.{AgentLimits}
use ai_support_engineering_p.Agent.Planning.{LoopState}
use ai_support_engineering_p.Agent.Tables.{
  by_execution, find_execution, in_execution, set_execution,
}
use ai_support_engineering_p.Common.{
  Bool-cases, List, String, [], ap, false, find-modify, find-modify_other, inl, inr, keep,
  keep-snoc, length, some, subst, true, ◌++◌, ◌+◌, ◌<◌, ◌∙◌, ◌∷◌, ◌≡◌, ◌≤◌,
}
use ai_support_engineering_p.Db.{AgentExecutionRecord, AgentStepRecord, Db}
use text.Mathlib.Text.{◌==◌ as str_eq}
use text.Mathlib.TextEquality.{eq_iff}
use text.Mathlib.TextPositions.{eq_refl}

-- The loop's view of the database, from state `s` of execution `x`.
pub record InLoop (limits : AgentLimits) (x : String) (s : LoopState) (db : Db) : Type 0 where
  pub audited : Audited limits db
  pub stored : steps_of x db ≡ s.steps
  pub calls : s.tool_calls ≡ succeeded_count s.steps

-- What a session that adds `row` does to its execution's counters.
pub record Counts (row : AgentStepRecord) (f : AgentExecutionRecord → AgentExecutionRecord)
    : Type 0 where
  pub key : (r : AgentExecutionRecord) → (f r).execution_id ≡ r.execution_id
  pub steps : (r : AgentExecutionRecord) → (f r).step_count ≡ row.step_number
  pub calls :
      (r : AgentExecutionRecord)
      → (f r).tool_call_count ≡ r.tool_call_count + succeeded_count (row ∷ [])

module _ (limits : AgentLimits) (x : String) where
  pub set_execution-InLoop :
      (s : LoopState) (f : AgentExecutionRecord → AgentExecutionRecord) (db : Db)
      → Keeps f
      → InLoop limits x s db
      → InLoop limits x s (set_execution x f db)
  set_execution-InLoop s f db k h = record {
    audited = set_execution-Audited limits x f db k h.audited;
    stored = h.stored;
    calls = h.calls;
  }

  other_rows :
      (y : String) (row : AgentStepRecord) (rows : List AgentStepRecord)
      → str_eq row.execution_id y ≡ false
      → keep (in_execution y) (rows ++ row ∷ []) ≡ keep (in_execution y) rows
  other_rows y row rows h = rw (keep-snoc (in_execution y) rows row, h) (append-nil _)

  own_rows :
      (y : String) (row : AgentStepRecord) (rows : List AgentStepRecord)
      → str_eq row.execution_id y ≡ true
      → keep (in_execution y) (rows ++ row ∷ []) ≡ keep (in_execution y) rows ++ row ∷ []
  own_rows y row rows h = rw (keep-snoc (in_execution y) rows row, h)

  -- The trail of another execution stays as it was.
  other-Trail :
      (y : String) (row : AgentStepRecord) (f : AgentExecutionRecord → AgentExecutionRecord)
      (db : Db)
      → Counts row f
      → str_eq row.execution_id y ≡ false
      → Trail limits (counters_of y db) (steps_of y db)
      → Trail limits
          (counters_of y
            (set_execution row.execution_id f (record db { steps = db.steps ++ row ∷ [] })))
          (keep (in_execution y) (db.steps ++ row ∷ []))
  other-Trail y row f db c h t = rw (other_rows y row db.steps h) (
      rw
        (find-modify_other (by_execution row.execution_id) (by_execution y) f db.executions
          (λ r. ap (λ i. str_eq i y) (c.key r))
          (λ r e. rw ((eq_iff r.execution_id row.execution_id).0 e) h))
        t)

  -- The trail of its own execution is one step longer.
  own-Trail :
      (row : AgentStepRecord) (r : AgentExecutionRecord)
      (f : AgentExecutionRecord → AgentExecutionRecord) (db : Db)
      → Counts row f
      → find_execution row.execution_id db ≡ some r
      → row.step_number ≡ length (steps_of row.execution_id db) + 1
      → length (steps_of row.execution_id db) < limits.max_steps
      → succeeded_count (row ∷ []) + succeeded_count (steps_of row.execution_id db)
        ≤ limits.max_tool_calls
      → retrieval_count (row ∷ []) + retrieval_count (steps_of row.execution_id db) ≤ 1
      → Trail limits (counters_of row.execution_id db) (steps_of row.execution_id db)
      → Trail limits
          (counters_of row.execution_id
            (set_execution row.execution_id f (record db { steps = db.steps ++ row ∷ [] })))
          (keep (in_execution row.execution_id) (db.steps ++ row ∷ []))
  own-Trail row r f db c found n room tools once t =
      rw (own_rows row.execution_id row db.steps (eq_refl row.execution_id)) (
        rw
          (find-modify (by_execution row.execution_id) f db.executions
            (λ q. ap (λ i. str_eq i row.execution_id) (c.key q)))
          (rw found (
            Trail-snoc limits r.step_count r.tool_call_count _ _ _ row (rw found at t) n room tools
              once (c.steps r ∙ n) (c.calls r))))

  -- What a row must be to extend the trail of `x` from state `s`.
  pub record Extends (s : LoopState) (row : AgentStepRecord) : Type 0 where
    pub mine : row.execution_id ≡ x
    pub next : row.step_number ≡ length s.steps + 1
    pub room : length s.steps < limits.max_steps
    pub tools : succeeded_count (row ∷ []) + succeeded_count s.steps ≤ limits.max_tool_calls
    pub once : retrieval_count (row ∷ []) + retrieval_count s.steps ≤ 1

  abbrev pub with_row : AgentStepRecord → (AgentExecutionRecord → AgentExecutionRecord) → Db → Db
  with_row row f db = set_execution row.execution_id f (record db { steps = db.steps ++ row ∷ [] })

  extended-Trail :
      (s : LoopState) (row : AgentStepRecord) (r : AgentExecutionRecord)
      (f : AgentExecutionRecord → AgentExecutionRecord) (db : Db)
      → Counts row f
      → Extends s row
      → find_execution row.execution_id db ≡ some r
      → InLoop limits x s db
      → (y : String)
      → Trail limits (counters_of y (with_row row f db)) (steps_of y (with_row row f db))
  extended-Trail s row r f db c e found h y = elim (Bool-cases (str_eq row.execution_id y)) [
    | inr other ↦ other-Trail y row f db c other (h.audited.trail y)
    | inl own ↦
        let mine : steps_of row.execution_id db ≡ s.steps = rw e.mine h.stored in
        subst
          (λ z. Trail limits (counters_of z (with_row row f db)) (steps_of z (with_row row f db)))
          ((eq_iff row.execution_id y).0 own)
          (own-Trail row r f db c found (rw mine e.next) (rw mine e.room) (rw mine e.tools)
            (rw mine e.once) (h.audited.trail row.execution_id))
  ]

  -- The database after a session that added `row`.
  pub record Added (s : LoopState) (row : AgentStepRecord) (db : Db) : Type 0 where
    pub audited : Audited limits db
    pub stored : steps_of x db ≡ s.steps ++ row ∷ []

  pub with_row-Added :
      (s : LoopState) (row : AgentStepRecord) (r : AgentExecutionRecord)
      (f : AgentExecutionRecord → AgentExecutionRecord) (db : Db)
      → Counts row f
      → Extends s row
      → find_execution row.execution_id db ≡ some r
      → InLoop limits x s db
      → Added s row (with_row row f db)
  with_row-Added s row r f db c e found h = record {
    audited = record { trail = extended-Trail s row r f db c e found h };
    stored = own_rows x row db.steps (rw e.mine (eq_refl x)) ∙ ap (λ l. l ++ row ∷ []) h.stored;
  }
