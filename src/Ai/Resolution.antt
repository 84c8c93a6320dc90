-- ===== src/Ai/Resolution.antt =====
-- What an attempt of ai/workflow.py deals in: the generated resolution, what goes wrong, how that is
-- handled, and `validate_citations` of ai/prompting.py.
use ai_support_engineering_p.Agent.Failure.{Failure}
use ai_support_engineering_p.Agent.Validation.{citation_eq}
use ai_support_engineering_p.Common.{
  Bool, List, Option, Text, any, distinct, false, if◌then◌else◌, is_empty, keep, none, not, some,
  true, ℕ, ◌&&◌, ◌==◌,
}
use ai_support_engineering_p.Common.Exec.{Result}
use ai_support_engineering_p.Db.{AiResolutionStatus, IncidentRecord, SourceCitation}
use ai_support_engineering_p.Db.Json.{Value}
use ai_support_engineering_p.Knowledge.Retrieval.{RetrievedChunk}
use text.Mathlib.Text.{◌==◌ as str_eq}

-- What pydantic has validated of the model's answer.
pub record GeneratedResolution : Type 0 where
  pub summary : Text
  pub root_cause : Text
  pub recommended_actions : List Text
  pub confidence : ℕ
  pub cited_sources : List SourceCitation

-- What goes wrong in an attempt: `RetrievalError`, the two forms of `CitationValidationError`, and
-- what the retriever and the provider raise.
pub data Fault : Type 0 where
  no_context repeated_citations : Fault
  unknown_citations : List SourceCitation → Fault
  failed_call : Failure → Fault

-- The handlers around an attempt.
pub data Handling : Type 0 where
  retry_only may_end : Handling
  passed_on : Failure → Handling

-- The retriever, the prompt, the provider, `str(exc)` and `model_dump`, with the settings.
pub record Generation : Type 0 where
  pub max_attempts : ℕ
  pub stale_after : ℕ
  pub retrieve : ℕ → IncidentRecord → Result Failure (List RetrievedChunk)
  pub build_resolution_prompt : IncidentRecord → List RetrievedChunk → Text
  pub generate : ℕ → Text → Result Failure GeneratedResolution
  pub describe : Fault → Text
  pub dump_chunk : RetrievedChunk → Value

abbrev pub cites : SourceCitation → RetrievedChunk → Bool
cites c item = str_eq item.source_id c.source_id && (item.chunk_id == c.chunk_id)

abbrev pub is_retrieved : List RetrievedChunk → SourceCitation → Bool
is_retrieved context c = any (cites c) context

-- `validate_citations`: what it raises.
unfoldable pub validate_citations : List SourceCitation → List RetrievedChunk → Option Fault
validate_citations supplied context =
    let invalid = keep (λ c. not (is_retrieved context c)) supplied in
    if not (is_empty invalid)
    then some (unknown_citations invalid)
    else if not (distinct citation_eq supplied)
    then some repeated_citations
    else none

abbrev pub is_ended : AiResolutionStatus → Bool
is_ended AiResolutionStatus.completed = true
is_ended AiResolutionStatus.failed = true
is_ended _ = false

abbrev pub is_processing : AiResolutionStatus → Bool
is_processing AiResolutionStatus.processing = true
is_processing _ = false

abbrev pub is_completed : AiResolutionStatus → Bool
is_completed AiResolutionStatus.completed = true
is_completed _ = false

abbrev pub failure_handling : Failure → Handling
failure_handling (Failure.provider_unavailable t) = Handling.retry_only
failure_handling (Failure.sqlalchemy t) = Handling.retry_only
failure_handling (Failure.provider_response t) = Handling.may_end
failure_handling (Failure.structured_output t) = Handling.may_end
failure_handling (Failure.provider_error t) = Handling.may_end
failure_handling e = Handling.passed_on e

abbrev pub handling : Fault → Handling
handling Fault.no_context = Handling.retry_only
handling Fault.repeated_citations = Handling.may_end
handling (Fault.unknown_citations invalid) = Handling.may_end
handling (Fault.failed_call e) = failure_handling e
