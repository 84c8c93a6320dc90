-- ===== src/Agent/Audit.antt =====
-- The audit trail of the executions: what holds of the stored steps of every execution, and how
-- the writes of agent/workflow.py keep it.
pub mod Writes
pub mod Rounds
pub mod Stepping
pub mod Acts
pub mod Concluding
pub mod Completing
pub mod Kept
pub mod Entry
pub mod Resolved
pub mod Outcomes
use mathlib.Core.Option
use mathlib.Core.List.{append_assoc}
use ai_support_engineering_p.Agent.Evidence.{is_succeeded, succeeded_with}
use ai_support_engineering_p.Agent.Models.{AgentLimits}
use ai_support_engineering_p.Agent.Tables.{
  by_execution, find_execution, in_execution, set_execution,
}
use ai_support_engineering_p.Common.{
  List, Option, String, [], ap, arith, count, count-snoc, find-modify_view, keep, length,
  length-snoc, map, none, some, ℕ, ◌++◌, ◌+◌, ◌<◌, ◌∷◌, ◌≡◌, ◌≤◌,
}
use ai_support_engineering_p.Db.{AgentExecutionRecord, AgentStepRecord, Db}
use text.Mathlib.Text.{◌==◌ as str_eq}

abbrev pub steps_of : String → Db → List AgentStepRecord
steps_of x db = keep (in_execution x) db.steps

-- Step numbers count up from `n`.
abbrev pub NumberedFrom : ℕ → List AgentStepRecord → Type 0
NumberedFrom n [] = Unit
NumberedFrom n (r ∷ steps) = (r.step_number ≡ n) × NumberedFrom (n + 1) steps

abbrev pub succeeded_count : List AgentStepRecord → ℕ
succeeded_count steps = count (λ r. is_succeeded r.outcome) steps

abbrev pub retrieval_count : List AgentStepRecord → ℕ
retrieval_count steps = count (succeeded_with "retrieve_runbooks") steps

abbrev pub counters : AgentExecutionRecord → ℕ × ℕ
counters r = (r.step_count, r.tool_call_count)

-- The counters of the execution's row are those of its steps; no row, no steps.
abbrev pub Counted : Option (ℕ × ℕ) → List AgentStepRecord → Type 0
Counted none steps = steps ≡ []
Counted (some c) steps = (c.0 ≡ length steps) × (c.1 ≡ succeeded_count steps)

abbrev pub counters_of : String → Db → Option (ℕ × ℕ)
counters_of x db = Option.map counters (find_execution x db)

-- The trail of one execution is numbered 1, 2, … without a gap, keeps the budgets, holds at most
-- one successful runbook search, and agrees with the counters of the execution.
pub record Trail (limits : AgentLimits) (c : Option (ℕ × ℕ)) (steps : List AgentStepRecord)
    : Type 0 where
  pub numbered : NumberedFrom 1 steps
  pub step_budget : length steps ≤ limits.max_steps
  pub tool_budget : succeeded_count steps ≤ limits.max_tool_calls
  pub one_retrieval : retrieval_count steps ≤ 1
  pub counted : Counted c steps

-- The trails of all executions.
pub record Audited (limits : AgentLimits) (db : Db) : Type 0 where
  pub trail : (y : String) → Trail limits (counters_of y db) (steps_of y db)

NumberedFrom-snoc :
    (n : ℕ) (steps : List AgentStepRecord) (r : AgentStepRecord)
    → NumberedFrom n steps
    → r.step_number ≡ length steps + n
    → NumberedFrom n (steps ++ r ∷ [])
NumberedFrom-snoc n [] r h e = (omega arith, tt)
NumberedFrom-snoc n (s ∷ steps) r h e = (h.0, NumberedFrom-snoc (n + 1) steps r h.1 (omega arith))

-- A trail that a step with the next number may extend.
pub Trail-snoc :
    (limits : AgentLimits) (a b a' b' : ℕ) (steps : List AgentStepRecord) (r : AgentStepRecord)
    → Trail limits (some (a, b)) steps
    → r.step_number ≡ length steps + 1
    → length steps < limits.max_steps
    → succeeded_count (r ∷ []) + succeeded_count steps ≤ limits.max_tool_calls
    → retrieval_count (r ∷ []) + retrieval_count steps ≤ 1
    → a' ≡ length steps + 1
    → b' ≡ b + succeeded_count (r ∷ [])
    → Trail limits (some (a', b')) (steps ++ r ∷ [])
Trail-snoc limits a b a' b' steps r t n room tools once ea eb = record {
  numbered = NumberedFrom-snoc 1 steps r t.numbered n;
  step_budget = omega (arith, length-snoc steps r);
  tool_budget = omega (arith, count-snoc (λ r. is_succeeded r.outcome) steps r);
  one_retrieval = omega (arith, count-snoc (succeeded_with "retrieve_runbooks") steps r);
  counted = (
    omega (arith, length-snoc steps r),
    omega (arith, count-snoc (λ r. is_succeeded r.outcome) steps r),
  );
}

-- What a write to the row of an execution must keep for the trails to stay as they are.
pub record Keeps (f : AgentExecutionRecord → AgentExecutionRecord) : Type 0 where
  pub key : (r : AgentExecutionRecord) → (f r).execution_id ≡ r.execution_id
  pub counts : (r : AgentExecutionRecord) → counters (f r) ≡ counters r

pub counters_of-set_execution :
    (x y : String) (f : AgentExecutionRecord → AgentExecutionRecord) (db : Db)
    → Keeps f
    → counters_of y (set_execution x f db) ≡ counters_of y db
counters_of-set_execution x y f db k =
    find-modify_view (by_execution x) (by_execution y) f counters db.executions
      (λ r. ap (λ i. str_eq i y) (k.key r)) k.counts

pub set_execution-Audited :
    (limits : AgentLimits) (x : String) (f : AgentExecutionRecord → AgentExecutionRecord) (db : Db)
    → Keeps f
    → Audited limits db
    → Audited limits (set_execution x f db)
set_execution-Audited limits x f db k h = record {
  trail = λ y. rw (counters_of-set_execution x y f db k) (h.trail y);
}
