-- ===== src/Agent/Tables.antt =====
-- The queries of agent/workflow.py: how a row is found and written.
use ai_support_engineering_p.Agent.Failure.{Failure, sqlalchemy}
use ai_support_engineering_p.Common.{
  Bool, List, Option, String, [], any, codes, find, if◌then◌else◌, keep, leb, modify, ℕ, ◌&&◌, ◌++◌,
  ◌==◌, ◌∷◌,
}
use ai_support_engineering_p.Common.Exec.{Result, err, ok}
use ai_support_engineering_p.Db.{
  AiResolutionRecord, AgentExecutionRecord, AgentStepRecord, Db, IncidentRecord,
}
use text.Mathlib.Text.{◌==◌ as str_eq}

abbrev pub by_id : ℕ → IncidentRecord → Bool
by_id i r = r.id == i

abbrev pub by_execution : String → AgentExecutionRecord → Bool
by_execution x r = str_eq r.execution_id x

abbrev pub by_incident : ℕ → AgentExecutionRecord → Bool
by_incident i r = r.incident_id == i

abbrev pub of_incident : ℕ → AiResolutionRecord → Bool
of_incident i r = r.incident_id == i

abbrev pub in_execution : String → AgentStepRecord → Bool
in_execution x r = str_eq r.execution_id x

-- `.order_by(AgentStepRecord.step_number)`, which keeps the order of equal numbers.
unfoldable pub insert_step_sorted : AgentStepRecord → List AgentStepRecord → List AgentStepRecord
insert_step_sorted r [] = r ∷ []
insert_step_sorted r (s ∷ rows) =
    if leb r.step_number s.step_number then r ∷ s ∷ rows else s ∷ insert_step_sorted r rows

unfoldable pub order_steps : List AgentStepRecord → List AgentStepRecord
order_steps [] = []
order_steps (r ∷ rows) = insert_step_sorted r (order_steps rows)

-- `_load_steps`, without its session.
unfoldable pub load_steps : String → Db → List AgentStepRecord
load_steps x db = order_steps (keep (in_execution x) db.steps)

-- `session.scalar(select(AgentExecutionRecord).where(execution_id == x))`.
abbrev pub find_execution : String → Db → Option AgentExecutionRecord
find_execution x db = find (by_execution x) db.executions

abbrev pub find_resolution : ℕ → Db → Option AiResolutionRecord
find_resolution i db = find (of_incident i) db.resolutions

-- Assignments to the attributes of the found row.
abbrev pub set_execution : String → (AgentExecutionRecord → AgentExecutionRecord) → Db → Db
set_execution x f db = record db { executions = modify (by_execution x) f db.executions }

abbrev pub set_resolution : ℕ → (AiResolutionRecord → AiResolutionRecord) → Db → Db
set_resolution i f db = record db { resolutions = modify (of_incident i) f db.resolutions }

-- `session.add(step)`: the constraint `uq_agent_step_order` refuses a second row with its number.
abbrev pub same_step : AgentStepRecord → AgentStepRecord → Bool
same_step r s = in_execution r.execution_id s && (s.step_number == r.step_number)

unfoldable pub add_step : AgentStepRecord → Db → Result Failure Db
add_step r db =
    if any (same_step r) db.steps
    then err (sqlalchemy (codes "IntegrityError: uq_agent_step_order"))
    else ok (record db { steps = db.steps ++ r ∷ [] })
