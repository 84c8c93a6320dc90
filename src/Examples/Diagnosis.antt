-- ===== src/Examples/Diagnosis.antt =====
-- Incidents that the rules classify.
use ai_support_engineering_p.Common.{Bool, codes, false, none, refl, some, ℕ, ◌≡◌}
use ai_support_engineering_p.Db.{IncidentClassification, Severity}
use ai_support_engineering_p.Services.Analyzer.{
  IncidentRequest, analyze_incident, first_answer, matches,
}
use ai_support_engineering_p.Services.Analyzer.Cased.{analyze_incident_case}
use ai_support_engineering_p.Services.Analyzer.Ordered.{Analysis, analyze_incident-Analysis}
use ai_support_engineering_p.Services.Patterns.{ends_of, fold_case, is_word_char, occurs}

-- No character beyond ASCII occurs in the examples.
abbrev pub no_letter : ℕ → Bool
no_letter c = false

abbrev jwt_incident : IncidentRequest
jwt_incident = record {
  service = codes "identity-api";
  error = codes "JWT rejected";
  log = codes "timed out";
  severity = none;
}

abbrev shouted_incident : IncidentRequest
shouted_incident = record {
  service = codes "identity-api";
  error = codes "jwt REJECTED";
  log = codes "Timed Out";
  severity = none;
}

abbrev pub pool_incident : IncidentRequest
pool_incident = record {
  service = codes "billing";
  error = codes "Postgres";
  log = codes "connection reset\nafter a time-out";
  severity = some Severity.low;
}

jwt_classified :
    (analyze_incident no_letter jwt_incident).classification
    ≡ IncidentClassification.authentication_error
unfolding analyze_incident first_answer matches occurs ends_of is_word_char fold_case
jwt_classified = refl

pool_classified :
    (analyze_incident no_letter pool_incident).classification
    ≡ IncidentClassification.database_connection_error
unfolding analyze_incident first_answer matches occurs ends_of is_word_char fold_case
pool_classified = refl

pool_severity : (analyze_incident no_letter pool_incident).severity ≡ Severity.low
unfolding analyze_incident first_answer matches occurs ends_of is_word_char fold_case
pool_severity = refl

analyze_incident-Analysis_example :
    Analysis no_letter pool_incident (analyze_incident no_letter pool_incident)
analyze_incident-Analysis_example = analyze_incident-Analysis no_letter pool_incident

analyze_incident_case_example :
    analyze_incident no_letter jwt_incident ≡ analyze_incident no_letter shouted_incident
analyze_incident_case_example =
    analyze_incident_case no_letter jwt_incident shouted_incident refl refl refl
