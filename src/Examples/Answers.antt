-- ===== src/Examples/Answers.antt =====
-- Witnesses for the validation of final responses.
use ai_support_engineering_p.Agent.Models.{AgentFinalResponse}
use ai_support_engineering_p.Agent.Sanitization.{is_sensitive, redacted, sanitize_value}
use ai_support_engineering_p.Agent.Sanitization.Clean.{Clean}
use ai_support_engineering_p.Agent.Validation.{half, is_dangerous, validate_final, with_updates}
use ai_support_engineering_p.Agent.Validation.Accepted.{validate_final-capped, validate_final_iff}
use ai_support_engineering_p.Agent.Validation.Grounded.{Acceptable, HasRunbook}
use ai_support_engineering_p.Common.{List, String, [], codes, refl, true, ◌∷◌, ◌≡◌, ◌≢◌, ◌≤◌}
use ai_support_engineering_p.Common.Exec.{ok}
use ai_support_engineering_p.Db.Json.{Value, end, field, integer, object, text, ℤ}
use ai_support_engineering_p.Examples.Data.{
  incident_reference, runbook_reference, sample_env, sample_final,
}
use mathlib.Core.Logic.{◌↔◌}

abbrev sample_tools : List String
sample_tools = "get_incident" ∷ "retrieve_runbooks" ∷ []

abbrev uncited_final : AgentFinalResponse
uncited_final = record sample_final { cited_sources = [] }

validate_final_iff_example :
    ((accepted : AgentFinalResponse) × (validate_final sample_final sample_tools
          (runbook_reference ∷ [])
        ≡ ok accepted))
    ↔ Acceptable sample_final sample_tools (runbook_reference ∷ [])
validate_final_iff_example = validate_final_iff sample_final sample_tools (runbook_reference ∷ [])

uncited_accepted :
    validate_final uncited_final sample_tools (incident_reference ∷ [])
    ≡ ok (with_updates uncited_final sample_tools true)
unfolding validate_final is_dangerous
uncited_accepted = refl

validate_final-capped_example :
    let accepted = with_updates uncited_final sample_tools true in
    (accepted.tools_used ≡ sample_tools)
    × (¬ HasRunbook (incident_reference ∷ [])
        → (accepted.confidence ≤ half)
          × (accepted.confidence ≤ uncited_final.confidence)
          × (accepted.escalation_required ≡ true)
          × (accepted.human_review_recommended ≡ true)
          × (accepted.limitations ≢ []))
validate_final-capped_example =
    validate_final-capped uncited_final sample_tools (incident_reference ∷ [])
      (with_updates uncited_final sample_tools true) uncited_accepted

abbrev secret_arguments : Value
secret_arguments =
    object
      (field (codes "API_Key") (text (codes "abc")) (field (codes "top_k") (integer (ℤ.pos 3)) end))

hides_key :
    sanitize_value sample_env 0 secret_arguments
    ≡ object (field (codes "API_Key") redacted (field (codes "top_k") (integer (ℤ.pos 3)) end))
unfolding sanitize_value is_sensitive
hides_key = refl
