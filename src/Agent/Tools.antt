-- ===== src/Agent/Tools.antt =====
-- The tool boundary of agent/tools.py: `ToolRegistry.get` and `ToolExecutor._execute_impl`.
-- Spans and metrics of `ToolExecutor.execute` change no state of the model.
pub mod Allowed
pub mod Similar
use ai_support_engineering_p.Agent.Env.{Env, M, ToolInput, ToolOutput, ask}
use ai_support_engineering_p.Agent.Failure.{
  Budget, Failure, ToolFault, budget_exceeded, provider_unavailable, sqlalchemy, tool_execution,
  tool_timeout, unauthorized_arguments, unknown_tool,
}
use ai_support_engineering_p.Agent.Models.{ToolRequest, ToolResult}
use ai_support_engineering_p.Agent.Sanitization.{sanitize_data, sanitize_text}
use ai_support_engineering_p.Common.{
  Bool, List, Option, String, [], any, if◌then◌else◌, leb, ltb, none, or_else, some, ℕ, ◌-◌, ◌==◌,
  ◌∷◌,
}
use ai_support_engineering_p.Common.Exec.{Result, err, lift, ok, ◌>>=◌}
use text.Mathlib.Text.{◌==◌ as str_eq}

-- The tools that `ToolRegistry()` registers.
abbrev pub registry : List String
registry =
    "get_incident" ∷ "retrieve_runbooks" ∷ "search_similar_incidents" ∷ "get_previous_resolutions"
    ∷ "get_incident_resolution_context" ∷ "summarize_evidence" ∷ []

abbrev pub max_tool_argument_bytes : ℕ
max_tool_argument_bytes = 8000

abbrev pub max_tool_result_bytes : ℕ
max_tool_result_bytes = 24000

-- Server-owned state of one execution (`ToolContext`).
pub record ToolContext : Type 0 where
  pub incident_id : ℕ
  pub previous_results : List (ℕ × ToolResult)

-- The tests before the call, in their order: budget, size, allowlist, schema, incident scope.
-- `getattr(arguments, "incident_id", context.incident_id)` is the input's incident, if it has one.
abbrev pub in_scope : ToolContext → ToolInput → Bool
in_scope context input = or_else input.incident_id context.incident_id == context.incident_id

abbrev pub authorize : ToolContext → String → Option ToolInput → Result Failure ToolInput
authorize context name none = err (tool_execution (ToolFault.invalid_arguments name))
authorize context name (some input) =
    if in_scope context input then ok input else err unauthorized_arguments

module _ (env : Env) (max_tool_calls : ℕ) where
  unfoldable pub validate : ToolRequest → ToolContext → ℕ → Result Failure ToolInput
  validate request context current_tool_calls =
      if leb max_tool_calls current_tool_calls
      then err (budget_exceeded Budget.max_tool_calls)
      else if ltb max_tool_argument_bytes (env.json_bytes request.arguments)
      then err (tool_execution ToolFault.arguments_too_large)
      else if any (str_eq request.tool_name) registry
      then authorize context request.tool_name
          (env.validate_input request.tool_name request.arguments)
      else err (unknown_tool request.tool_name)

  -- The `except` clauses round `future.result`: a timeout, a tool's error, an unavailable provider
  -- and a database error go through; anything else fails safely.
  unfoldable pub tool_failure : String → Failure → Failure
  tool_failure name (Failure.tool_timeout n) = tool_timeout n
  tool_failure name (Failure.tool_execution f) = tool_execution f
  tool_failure name (Failure.provider_unavailable t) = provider_unavailable t
  tool_failure name (Failure.sqlalchemy t) = sqlalchemy t
  tool_failure name _ = tool_execution (ToolFault.failed_safely name)

  unfoldable pub bounded_result : String → ℕ → Result Failure ToolOutput → Result Failure ToolResult
  bounded_result name duration (err e) = err (tool_failure name e)
  bounded_result name duration (ok output) =
      if ltb max_tool_result_bytes (env.output_bytes output)
      then err (tool_execution ToolFault.result_too_large)
      else ok (record {
        tool_name = name;
        summary = sanitize_text env output.summary;
        contents = sanitize_data env output.contents;
        evidence_references = output.evidence_references;
        duration_ms = duration;
      })

  unfoldable pub execute : ToolRequest → ToolContext → ℕ → M ToolResult
  execute request context current_tool_calls = do
    input ← lift (validate request context current_tool_calls)
    started ← ask env.perf_counter
    output ← ask (λ n. env.run_tool n request.tool_name input context.previous_results)
    finished ← ask env.perf_counter
    lift (bounded_result request.tool_name (finished - started) output)
