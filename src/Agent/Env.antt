-- ===== src/Agent/Env.antt =====
-- What the workflow meets outside its own code: clocks, the database driver, the model provider,
-- the tools, pydantic and json. Each use reads the answer for the next tick, so a theorem over
-- every `Env` holds for all answers in every order.
pub mod Rules
use ai_support_engineering_p.Agent.Failure.{Failure, sqlalchemy}
use ai_support_engineering_p.Agent.Models.{
  AgentFinalResponse, IncidentCreatedEvent, PlannerDecision, RequiredIncidentDecision,
  RequiredRetrievalDecision, ToolResult,
}
use ai_support_engineering_p.Common.{Bool, List, Option, String, Text, none, some, ℕ, ◌+◌}
use ai_support_engineering_p.Common.Exec.{Exec, Result, err, ok}
use ai_support_engineering_p.Db.{AgentStepRecord, Db, EvidenceReference, SourceCitation}
use ai_support_engineering_p.Db.Json.{Fields, Value}

-- A validated input of a tool (tools.py): what pydantic's `model_validate` returns. Only the
-- incident that it names matters to the executor.
pub record ToolInput : Type 0 where
  pub incident_id : Option ℕ
  pub arguments : Fields

pub record ToolOutput : Type 0 where
  pub summary : Text
  pub contents : Fields
  pub evidence_references : List EvidenceReference

pub record Env : Type 0 where
  -- `datetime.now(UTC)`, `time.perf_counter()`, `uuid4()` and the next row id
  pub now : ℕ → ℕ
  pub perf_counter : ℕ → ℕ
  pub uuid4 : ℕ → String
  pub next_id : ℕ → ℕ
  -- the `SQLAlchemyError`, if any, that the session raises
  pub db_fault : ℕ → Option Text
  -- `str(exc)`
  pub str : Failure → Text
  -- `generate_structured`, with the length of the response's JSON
  pub plan : ℕ → Text → Result Failure (PlannerDecision × ℕ)
  pub plan_incident : ℕ → Text → Result Failure (RequiredIncidentDecision × ℕ)
  pub plan_retrieval : ℕ → Text → Result Failure (RequiredRetrievalDecision × ℕ)
  pub resolve_final : ℕ → Text → Result Failure (AgentFinalResponse × ℕ)
  pub last_usage : ℕ → Value
  pub provider_name : String
  pub model_name : String
  pub embedding_provider_name : String
  pub embedding_model_name : String
  -- name and version of the loaded prompts, and `PromptTemplate.render`
  pub planner_prompt : String × String
  pub resolver_prompt : String × String
  pub render_planner : IncidentCreatedEvent → List AgentStepRecord → Text → Text
  pub render_resolver :
      IncidentCreatedEvent → List (ℕ × ToolResult) → List SourceCitation → List String → Text
  -- `input_model.model_validate`, by the tool's name
  pub validate_input : String → Fields → Option ToolInput
  -- a registered tool's `execute` in its thread: an output, an exception, or `ToolTimeoutError`
  pub run_tool : ℕ → String → ToolInput → List (ℕ × ToolResult) → Result Failure ToolOutput
  -- the bytes of a value's JSON in UTF-8, and `_json`'s text before it is cut
  pub json_bytes : Fields → ℕ
  pub output_bytes : ToolOutput → ℕ
  pub dumps : Value → Text
  -- the `sub` of the n-th pattern of sanitization.py, with its replacement
  pub redact : ℕ → Text → Text
  -- `model_dump(mode="json")` and `ToolResult.model_validate`
  pub dump_result : ToolResult → Value
  pub load_result : Value → Option ToolResult
  pub dump_final : AgentFinalResponse → Value
  -- Python's `==` on the pairs that key the retrieved chunks
  pub same_key : Value × Value → Value × Value → Bool

pub record World : Type 0 where
  pub db : Db
  pub tick : ℕ

abbrev pub M : Type 0 → Type 0
M A = Exec World Failure A

-- Reads the next answer of the environment.
unfoldable pub ask : {A : Type 0} → (ℕ → A) → M A
ask f w = (ok (f w.tick), record w { tick = w.tick + 1 })

-- The work of one session, which commits all of its writes at its end: an exception, its own or
-- the driver's, leaves the database as it was.
abbrev pub commit : {A : Type 0} → World → Result Failure (A × Db) → Result Failure A × World
commit w (ok (a, d)) = (ok a, record { db = d; tick = w.tick + 1 })
commit w (err e) = (err e, record w { tick = w.tick + 1 })

unfoldable pub transaction : {A : Type 0} → Env → (Db → Result Failure (A × Db)) → M A
transaction env body w =
    commit w
      (elim (env.db_fault w.tick) [ some message ↦ err (sqlalchemy message) | none ↦ body w.db ])
