-- ===== src/Agent/Models.antt =====
-- agent/models.py, the planner shapes of agent/workflow.py, and the event of events/models.py.
-- Length limits of the fields are enforced by pydantic before a value reaches this code.
use ai_support_engineering_p.Common.{ℕ, Bool, Option, some, none, List, String, Text, codes}
use ai_support_engineering_p.Db.{
  Severity, IncidentClassification, NextAction, EvidenceReference, SourceCitation,
}
use ai_support_engineering_p.Db.Json.{Fields, Value, ℤ, end, field, integer, text, null}

-- `IncidentCreatedEvent`; `event_version` is the literal 1.
pub record IncidentCreatedEvent : Type 0 where
  pub event_id : String
  pub event_type : String
  pub occurred_at : ℕ
  pub incident_id : ℕ
  pub service : Text
  pub classification : IncidentClassification
  pub severity : Severity

pub record PlannerDecision : Type 0 where
  pub goal : Text
  pub next_action : NextAction
  pub tool_name : Option String
  pub tool_arguments : Option Fields
  pub reason_summary : Text
  pub expected_evidence : Text

pub record RequiredIncidentDecision : Type 0 where
  pub goal : Text
  pub incident_id : ℕ
  pub reason_summary : Text
  pub expected_evidence : Text

pub record RequiredRetrievalDecision : Type 0 where
  pub goal : Text
  pub query : Text
  pub classification : Option Text
  pub top_k : ℕ
  pub reason_summary : Text
  pub expected_evidence : Text

pub record ToolRequest : Type 0 where
  pub tool_name : String
  pub arguments : Fields

-- The `status` of a result is always "succeeded" in this code.
pub record ToolResult : Type 0 where
  pub tool_name : String
  pub summary : Text
  pub contents : Fields
  pub evidence_references : List EvidenceReference
  pub duration_ms : ℕ

pub record AgentFinalResponse : Type 0 where
  pub summary : Text
  pub root_cause : Text
  pub recommended_actions : List Text
  pub confidence : ℕ
  pub cited_sources : List SourceCitation
  pub evidence_summary : Text
  pub tools_used : List String
  pub limitations : List Text
  pub escalation_required : Bool
  pub human_review_recommended : Bool

-- Server-owned hard limits for one execution (workflow.py, `AgentLimits`).
pub record AgentLimits : Type 0 where
  pub max_steps : ℕ
  pub max_tool_calls : ℕ
  pub max_repeated_tool_calls : ℕ
  pub max_retrieval_chunks : ℕ
  pub max_duration : ℕ
  pub tool_timeout : ℕ
  pub model_retries : ℕ
  pub repair_attempts : ℕ

abbrev pub optional_text : Option Text → Value
optional_text none = null
optional_text (some t) = text t

-- `PlannerDecision.model_validate(raw.model_dump(mode="json"))` of `_plan`, for each raw shape.
unfoldable pub from_required_incident : RequiredIncidentDecision → PlannerDecision
from_required_incident raw = record {
  goal = raw.goal;
  next_action = NextAction.tool;
  tool_name = some "get_incident";
  tool_arguments = some (field (codes "incident_id") (integer (ℤ.pos raw.incident_id)) end);
  reason_summary = raw.reason_summary;
  expected_evidence = raw.expected_evidence;
}

unfoldable pub from_required_retrieval : RequiredRetrievalDecision → PlannerDecision
from_required_retrieval raw = record {
  goal = raw.goal;
  next_action = NextAction.tool;
  tool_name = some "retrieve_runbooks";
  tool_arguments = some (
      field (codes "query") (text raw.query) (
        field (codes "classification") (optional_text raw.classification)
          (field (codes "top_k") (integer (ℤ.pos raw.top_k)) end)));
  reason_summary = raw.reason_summary;
  expected_evidence = raw.expected_evidence;
}
