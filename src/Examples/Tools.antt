-- ===== src/Examples/Tools.antt =====
-- Witnesses for the tool boundary and for the evidence of an execution.
use ai_support_engineering_p.Agent.Env.{ToolInput}
use ai_support_engineering_p.Agent.Evidence.{evidence_references}
use ai_support_engineering_p.Agent.Evidence.Gathered.{evidence_references_lem}
use ai_support_engineering_p.Agent.Models.{ToolRequest, ToolResult}
use ai_support_engineering_p.Agent.Tools.{ToolContext, validate}
use ai_support_engineering_p.Agent.Tools.Allowed.{Allowed, validate_iff}
use ai_support_engineering_p.Common.{List, Unique, [], codes, some, ℕ, ◌∷◌, ◌≡◌}
use ai_support_engineering_p.Common.Exec.{ok}
use ai_support_engineering_p.Db.{EvidenceReference}
use ai_support_engineering_p.Db.Json.{end}
use ai_support_engineering_p.Examples.Data.{incident_reference, runbook_reference, sample_env}
use mathlib.Core.List.{Memᴰ}
use mathlib.Core.Logic.{◌↔◌}

abbrev incident_request : ToolRequest
incident_request = record { tool_name = "get_incident"; arguments = end }

abbrev incident_context : ToolContext
incident_context = record { incident_id = 7; previous_results = [] }

abbrev incident_input : ToolInput
incident_input = record { incident_id = some 7; arguments = end }

validate_iff_example :
    (validate sample_env 4 incident_request incident_context 0 ≡ ok incident_input)
    ↔ Allowed sample_env 4 incident_request incident_context 0 incident_input
validate_iff_example = validate_iff sample_env 4 incident_request incident_context 0 incident_input

abbrev runbook_result : ToolResult
runbook_result = record {
  tool_name = "retrieve_runbooks";
  summary = codes "found";
  contents = end;
  evidence_references = runbook_reference ∷ incident_reference ∷ runbook_reference ∷ [];
  duration_ms = 3;
}

abbrev gathered_results : List (ℕ × ToolResult)
gathered_results = (1, runbook_result) ∷ []

evidence_references_lem_example :
    Unique (evidence_references gathered_results)
    × ((r : EvidenceReference)
        → Memᴰ r (evidence_references gathered_results) ↔ (
            (n : ℕ) × (result : ToolResult) × Memᴰ (n, result) gathered_results
            × Memᴰ r result.evidence_references))
evidence_references_lem_example = evidence_references_lem gathered_results
