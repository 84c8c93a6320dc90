-- ===== src/Examples/Data.antt =====
-- An environment in which the model asks for the incident, then for runbooks, and then concludes.
use ai_support_engineering_p.Agent.Env.{Env, ToolOutput, World}
use ai_support_engineering_p.Agent.Models.{AgentFinalResponse, AgentLimits, IncidentCreatedEvent}
use ai_support_engineering_p.Agent.Validation.{half}
use ai_support_engineering_p.Common.{
  List, String, [], codes, false, if◌then◌else◌, none, some, true, ◌∷◌,
}
use ai_support_engineering_p.Common.Exec.{ok}
use ai_support_engineering_p.Db.{
  Db, EvidenceReference, EvidenceType, IncidentClassification, IncidentRecord, NextAction, Severity,
}
use ai_support_engineering_p.Db.Json.{end, null}
use text.Mathlib.Text.{◌==◌ as str_eq}

abbrev pub sample_event : IncidentCreatedEvent
sample_event = record {
  event_id = "e-1";
  event_type = "incident.created";
  occurred_at = 5;
  incident_id = 7;
  service = codes "billing";
  classification = IncidentClassification.timeout_error;
  severity = Severity.high;
}

abbrev pub sample_limits : AgentLimits
sample_limits = record {
  max_steps = 6;
  max_tool_calls = 4;
  max_repeated_tool_calls = 1;
  max_retrieval_chunks = 5;
  max_duration = 600000;
  tool_timeout = 5000;
  model_retries = 3;
  repair_attempts = 2;
}

abbrev pub sample_incident : IncidentRecord
sample_incident = record {
  id = 7;
  service = codes "billing";
  error = codes "timeout";
  log = codes "connect timed out";
  requested_severity = none;
  resolved_severity = Severity.high;
  classification = IncidentClassification.timeout_error;
  probable_cause = codes "A dependency is slow.";
  recommended_actions = codes "Check the dependency." ∷ [];
  created_at = 4;
}

abbrev pub runbook_reference : EvidenceReference
runbook_reference = record {
  evidence_type = EvidenceType.runbook;
  reference_id = codes "runbook-timeouts:2";
  source_id = some "runbook-timeouts";
  chunk_id = some 2;
}

abbrev pub incident_reference : EvidenceReference
incident_reference = record {
  evidence_type = EvidenceType.incident;
  reference_id = codes "incident:7";
  source_id = none;
  chunk_id = none;
}

abbrev output_of : String → ToolOutput
output_of name = record {
  summary = codes "found";
  contents = end;
  evidence_references =
      (if str_eq name "get_incident" then incident_reference else runbook_reference) ∷ [];
}

abbrev pub sample_final : AgentFinalResponse
sample_final = record {
  summary = codes "The dependency timed out.";
  root_cause = codes "Connection pool too small.";
  recommended_actions = codes "Raise the pool size." ∷ [];
  confidence = half;
  cited_sources = record { source_id = "runbook-timeouts"; chunk_id = 2 } ∷ [];
  evidence_summary = codes "The runbook describes the pool.";
  tools_used = "get_incident" ∷ "retrieve_runbooks" ∷ [];
  limitations = [];
  escalation_required = false;
  human_review_recommended = true;
}

abbrev empty_resolution_db : List IncidentRecord → Db
empty_resolution_db incidents = record {
  incidents = incidents;
  resolutions = [];
  executions = [];
  steps = [];
  feedback = [];
  outbox = [];
  processed = [];
}

abbrev pub sample_env : Env
sample_env = record {
  now = λ n. n;
  perf_counter = λ n. n;
  uuid4 = λ n. "x-1";
  next_id = λ n. n;
  db_fault = λ n. none;
  str = λ e. codes "error";
  plan = λ n prompt. ok (
    record {
      goal = codes "conclude";
      next_action = NextAction.final;
      tool_name = none;
      tool_arguments = none;
      reason_summary = codes "evidence is here";
      expected_evidence = codes "none";
    },
    10,
  );
  plan_incident = λ n prompt. ok (
    record {
      goal = codes "read";
      incident_id = 7;
      reason_summary = codes "facts";
      expected_evidence = codes "incident";
    },
    10,
  );
  plan_retrieval = λ n prompt. ok (
    record {
      goal = codes "search";
      query = codes "timeout";
      classification = none;
      top_k = 3;
      reason_summary = codes "runbooks";
      expected_evidence = codes "chunks";
    },
    10,
  );
  resolve_final = λ n prompt. ok (sample_final, 10);
  last_usage = λ n. null;
  provider_name = "fake";
  model_name = "fake-1";
  embedding_provider_name = "fake";
  embedding_model_name = "fake-e";
  planner_prompt = ("planner", "v2");
  resolver_prompt = ("resolver", "v1");
  render_planner = λ event steps error. error;
  render_resolver = λ event results cited tools. [];
  validate_input = λ name fields. some (record { incident_id = some 7; arguments = fields });
  run_tool = λ n name input results. ok (output_of name);
  json_bytes = λ fields. 20;
  output_bytes = λ output. 200;
  dumps = λ v. [];
  redact = λ n t. t;
  dump_result = λ result. null;
  load_result = λ v. none;
  dump_final = λ final. null;
  same_key = λ a b. false;
}

abbrev pub first_world : World
first_world = record { db = empty_resolution_db (sample_incident ∷ []); tick = 0 }
