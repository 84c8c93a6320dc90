-- ===== src/Agent/Validation.antt =====
-- The local validation of a final response: `_validate_final` of agent/workflow.py.
pub mod Grounded
pub mod Accepted
use ai_support_engineering_p.Agent.Evidence.{chunk_eq, is_runbook, source_eq}
use ai_support_engineering_p.Agent.Failure.{Complaint, Failure, agent_validation}
use ai_support_engineering_p.Agent.Models.{AgentFinalResponse}
use ai_support_engineering_p.Common.{
  Bool, List, String, Text, [], any, codes, contains, distinct, if◌then◌else◌, is_empty, keep, leb,
  map, min, not, some, true, ℕ, ◌&&◌, ◌+◌, ◌==◌, ◌^◌, ◌∷◌,
}
use ai_support_engineering_p.Common.Exec.{Result, err, ok}
use ai_support_engineering_p.Db.{EvidenceReference, SourceCitation}
use text.Mathlib.Text.{◌==◌ as str_eq}

-- 0.5, in the units of `confidence`.
abbrev pub half : ℕ
half = 2 ^ 1073

abbrev pub citation_eq : SourceCitation → SourceCitation → Bool
citation_eq a b = str_eq a.source_id b.source_id && (a.chunk_id == b.chunk_id)

-- Whether the pair of a citation is that of a runbook reference.
abbrev pub refers_to : SourceCitation → EvidenceReference → Bool
refers_to c r = source_eq r.source_id (some c.source_id) && chunk_eq r.chunk_id (some c.chunk_id)

abbrev pub allows : List EvidenceReference → SourceCitation → Bool
allows allowed c = any (refers_to c) allowed

pub lower : ℕ → ℕ
lower c = if leb 65 c && leb c 90 then c + 32 else c

abbrev pub dangerous : List Text
dangerous =
    codes "rm -rf"
    ∷ codes "drop table"
    ∷ codes "delete from"
    ∷ codes "format c:"
    ∷ codes "i restarted"
    ∷ codes "we fixed"
    ∷ []

-- `any(fragment in action.lower() for fragment in dangerous)`. Lowering ASCII letters is enough:
-- beyond them only U+0130 and U+212A lower to a text with an ASCII letter, and neither of those
-- texts completes a fragment.
unfoldable pub is_dangerous : Text → Bool
unfolding lower
is_dangerous action = any (λ fragment. contains fragment (map lower action)) dangerous

abbrev pub no_evidence_limitation : Text
no_evidence_limitation = codes "No citation-addressable runbook evidence was available."

-- `final.limitations or [...]`.
abbrev pub or_limitation : List Text → List Text
or_limitation [] = no_evidence_limitation ∷ []
or_limitation (l ∷ limitations) = l ∷ limitations

-- The updates of a response that has passed: the tools that ran, and, where no runbook evidence
-- can be cited, capped confidence, escalation and review.
unfoldable pub with_updates : AgentFinalResponse → List String → Bool → AgentFinalResponse
with_updates final tools uncited =
    if uncited
    then record final {
      tools_used = tools;
      confidence = min final.confidence half;
      escalation_required = true;
      human_review_recommended = true;
      limitations = or_limitation final.limitations;
    }
    else record final { tools_used = tools }

unfoldable pub validate_final :
    AgentFinalResponse → List String → List EvidenceReference → Result Failure AgentFinalResponse
validate_final final tools references =
    let allowed = keep is_runbook references in
    let unknown = keep (λ t. not (any (str_eq t) tools)) final.tools_used in
    let invalid = keep (λ c. not (allows allowed c)) final.cited_sources in
    if not (distinct str_eq final.tools_used)
    then err (agent_validation Complaint.duplicate_tools)
    else if not (is_empty unknown)
    then err (agent_validation (Complaint.tools_not_run unknown))
    else if not (distinct citation_eq final.cited_sources)
    then err (agent_validation Complaint.duplicate_citations)
    else if not (is_empty invalid)
    then err (agent_validation (Complaint.citations_not_in_evidence invalid))
    else if not (is_empty allowed) && is_empty final.cited_sources
    then err (agent_validation Complaint.omitted_citations)
    else if any is_dangerous final.recommended_actions
    then err (agent_validation Complaint.remediation_guardrail)
    else ok (with_updates final tools (is_empty allowed))
