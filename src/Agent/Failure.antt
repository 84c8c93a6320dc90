-- ===== src/Agent/Failure.antt =====
-- The exceptions that meet in the workflow (agent/errors.py, ai/providers/base.py, ai/workflow.py,
-- SQLAlchemy's and pydantic's), and `safe_error` of agent/sanitization.py.
use ai_support_engineering_p.Common.{
  ℕ, Bool, true, false, List, map, String, Text, take, ◌==◌, ◌||◌, if◌then◌else◌,
}
use ai_support_engineering_p.Db.{SourceCitation}

-- What an `AgentValidationError` raised by this code says.
pub data Complaint : Type 0 where
  planner_output_invalid repeated_call_guardrail tool_request_invalid final_without_evidence
        duplicate_tools duplicate_citations omitted_citations remediation_guardrail
        provider_not_structured :
      Complaint
  final_invalid : Text → Complaint
  tools_not_run : List String → Complaint
  citations_not_in_evidence : List SourceCitation → Complaint

pub data Budget : Type 0 where
  max_steps max_duration max_total_duration tool_calls_before_evidence max_tool_calls : Budget

pub data ToolFault : Type 0 where
  arguments_too_large result_too_large : ToolFault
  invalid_arguments failed_safely : String → ToolFault
  tool_error : Text → ToolFault

-- Why a `RetryableResolutionError` is raised.
pub data Deferral : Type 0 where
  incident_not_visible : ℕ → Deferral
  state_disappeared : Deferral
  deferred : Text → Deferral

pub data Failure : Type 0 where
  provider_unavailable provider_response structured_output provider_error : Text → Failure
  agent_validation : Complaint → Failure
  unknown_tool : String → Failure
  unauthorized_arguments : Failure
  budget_exceeded : Budget → Failure
  tool_execution : ToolFault → Failure
  tool_timeout : String → Failure
  sqlalchemy : Text → Failure
  retryable_resolution : Deferral → Failure
  model_validation unexpected : Text → Failure

-- `type(error).__name__`; all are shorter than the 120 characters that are kept.
unfoldable pub class_name : Failure → String
class_name (Failure.provider_unavailable t) = "ProviderUnavailableError"
class_name (Failure.provider_response t) = "ProviderResponseError"
class_name (Failure.structured_output t) = "StructuredOutputValidationError"
class_name (Failure.provider_error t) = "ProviderError"
class_name (Failure.agent_validation c) = "AgentValidationError"
class_name (Failure.unknown_tool n) = "UnknownToolError"
class_name Failure.unauthorized_arguments = "UnauthorizedToolArgumentsError"
class_name (Failure.budget_exceeded b) = "AgentBudgetExceededError"
class_name (Failure.tool_execution f) = "ToolExecutionError"
class_name (Failure.tool_timeout n) = "ToolTimeoutError"
class_name (Failure.sqlalchemy t) = "SQLAlchemyError"
class_name (Failure.retryable_resolution t) = "RetryableResolutionError"
class_name (Failure.model_validation t) = "ValidationError"
class_name (Failure.unexpected t) = "Exception"

-- `isinstance(exc, ProviderResponseError)`: the class and its subclass.
abbrev pub is_response_error : Failure → Bool
is_response_error (Failure.provider_response t) = true
is_response_error (Failure.structured_output t) = true
is_response_error _ = false

-- `isinstance(exc, AgentValidationError)`: the class and its two subclasses.
abbrev pub is_agent_validation : Failure → Bool
is_agent_validation (Failure.agent_validation c) = true
is_agent_validation (Failure.unknown_tool n) = true
is_agent_validation Failure.unauthorized_arguments = true
is_agent_validation _ = false

-- `isinstance(exc, ToolExecutionError)`, and its subclass `ToolTimeoutError`.
abbrev pub is_tool_execution : Failure → Bool
is_tool_execution (Failure.tool_execution f) = true
is_tool_execution (Failure.tool_timeout n) = true
is_tool_execution _ = false

abbrev pub is_tool_timeout : Failure → Bool
is_tool_timeout (Failure.tool_timeout n) = true
is_tool_timeout _ = false

abbrev pub is_structured_output : Failure → Bool
is_structured_output (Failure.structured_output t) = true
is_structured_output _ = false

one_line : ℕ → ℕ
one_line c = if c == 10 || c == 13 then 32 else c

-- One line of at most 1,000 characters of `str(error)`.
unfoldable pub safe_error : Text → Text
unfolding one_line
safe_error message = take 1000 (map one_line message)
