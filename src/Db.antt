-- ===== src/Db.antt =====
-- The rows of db/models.py, the status enumerations of agent/models.py, ai/models.py and
-- models/incident.py, and the database as one list of rows for each table.
--
-- Times are readings of a clock in one unit; a float that holds a duration is a number of that
-- unit. `confidence` is exact: a double in [0, 1] is a multiple of 2 ^ -1074, and the model counts
-- those. A JSON column holds a `Value`.
use ai_support_engineering_p.Common.{ℕ, Bool, Option, List, String, Text}
use ai_support_engineering_p.Db.Json.{Value}
pub mod Json

pub data Severity : Type 0 where
  low medium high critical : Severity

pub data IncidentClassification : Type 0 where
  authentication_error database_connection_error timeout_error unknown_error :
      IncidentClassification

pub data AgentStatus : Type 0 where
  pending running waiting_for_tool completed retryable failed cancelled awaiting_review approved
        rejected :
      AgentStatus

pub data AiResolutionStatus : Type 0 where
  pending processing retryable completed failed : AiResolutionStatus

pub record SourceCitation : Type 0 where
  pub source_id : String
  pub chunk_id : ℕ

pub record IncidentRecord : Type 0 where
  pub id : ℕ
  pub service : Text
  pub error : Text
  pub log : Text
  pub requested_severity : Option Severity
  pub resolved_severity : Severity
  pub classification : IncidentClassification
  pub probable_cause : Text
  pub recommended_actions : List Text
  pub created_at : ℕ

pub record AiResolutionRecord : Type 0 where
  pub id : ℕ
  pub incident_id : ℕ
  pub event_id : String
  pub status : AiResolutionStatus
  pub attempt_count : ℕ
  pub summary : Option Text
  pub root_cause : Option Text
  pub recommended_actions : Option (List Text)
  pub confidence : Option ℕ
  pub cited_sources : Option (List SourceCitation)
  pub evidence_summary : Option Text
  pub tools_used : Option (List String)
  pub limitations : Option (List Text)
  pub escalation_required : Option Bool
  pub human_review_recommended : Option Bool
  pub retrieved_context : Option (List Value)
  pub llm_provider : Option String
  pub llm_model : Option String
  pub embedding_provider : Option String
  pub embedding_model : Option String
  pub prompt_name : Option String
  pub prompt_version : Option String
  pub error_message : Option Text
  pub processing_started_at : Option ℕ
  pub completed_at : Option ℕ
  pub created_at : ℕ
  pub updated_at : ℕ

pub record AgentExecutionRecord : Type 0 where
  pub id : ℕ
  pub execution_id : String
  pub incident_id : ℕ
  pub event_id : String
  pub status : AgentStatus
  pub provider : String
  pub model : String
  pub planner_prompt_name : String
  pub planner_prompt_version : String
  pub resolver_prompt_name : String
  pub resolver_prompt_version : String
  pub step_count : ℕ
  pub tool_call_count : ℕ
  pub model_call_count : ℕ
  pub retry_count : ℕ
  pub retrieved_chunk_count : ℕ
  pub total_duration_ms : Option ℕ
  pub provider_duration_ms : ℕ
  pub retrieval_duration_ms : ℕ
  pub tool_duration_ms : ℕ
  pub approximate_input_chars : ℕ
  pub approximate_output_chars : ℕ
  pub provider_usage : Option Value
  pub error_type : Option String
  pub error_message_safe : Option Text
  pub started_at : Option ℕ
  pub completed_at : Option ℕ
  pub created_at : ℕ
  pub updated_at : ℕ

pub data EvidenceType : Type 0 where
  incident runbook similar_incident resolution : EvidenceType

pub record EvidenceReference : Type 0 where
  pub evidence_type : EvidenceType
  pub reference_id : Text
  pub source_id : Option String
  pub chunk_id : Option ℕ

pub data NextAction : Type 0 where
  tool final : NextAction

-- The texts that the code writes to `agent_steps.outcome`.
pub data StepOutcome : Type 0 where
  succeeded repeated_tool_call tool_request_rejected final_missing_required_evidence completed :
      StepOutcome

pub record AgentStepRecord : Type 0 where
  pub execution_id : String
  pub step_number : ℕ
  pub action_type : NextAction
  pub tool_name : Option String
  pub sanitized_arguments : Option Value
  pub result_summary : Option Value
  pub evidence_references : List EvidenceReference
  pub reason_summary : Text
  pub expected_evidence : Text
  pub outcome : StepOutcome
  pub duration_ms : ℕ

pub data ReviewOutcome : Type 0 where
  feedback approved rejected : ReviewOutcome

pub record ResolutionFeedbackRecord : Type 0 where
  pub id : ℕ
  pub incident_id : ℕ
  pub resolution_id : ℕ
  pub rating : Option ℕ
  pub outcome : ReviewOutcome
  pub accepted : Bool
  pub edited : Bool
  pub comment : Option Text
  pub reviewer : Text

pub record OutboxEventRecord : Type 0 where
  pub event_id : String
  pub incident_id : ℕ
  pub event_type : String
  pub topic : String
  pub payload : Value
  pub attempts : ℕ
  pub next_attempt_at : ℕ
  pub last_error : Option Text
  pub published_at : Option ℕ
  pub created_at : ℕ

pub record ProcessedEventRecord : Type 0 where
  pub event_id : String
  pub event_type : String
  pub event_version : ℕ
  pub incident_id : ℕ
  pub consumer_group : String
  pub processing_result : Value

pub record Db : Type 0 where
  pub incidents : List IncidentRecord
  pub resolutions : List AiResolutionRecord
  pub executions : List AgentExecutionRecord
  pub steps : List AgentStepRecord
  pub feedback : List ResolutionFeedbackRecord
  pub outbox : List OutboxEventRecord
  pub processed : List ProcessedEventRecord
