-- ===== src/Services/Analyzer/Ordered.antt =====
-- Which kind of failure an incident is taken for, and what is answered.
use ai_support_engineering_p.Common.{
  Bool, Bool-cases, List, Option, Text, any-Mem, false, inl, inr, none, none-Mem, or_else, some,
  true, ℕ, ◌++◌, ◌∷◌, ◌≡◌,
}
use ai_support_engineering_p.Db.{IncidentClassification, Severity}
use ai_support_engineering_p.Knowledge.Whitespace.{line_feed}
use ai_support_engineering_p.Services.Analyzer.{
  IncidentAnalysisResponse, IncidentRequest, analyze_incident, first_answer, matches,
}
use ai_support_engineering_p.Services.Analyzer.Rules.{
  AnalysisRule, authentication_patterns, authentication_rule, database_patterns, database_rule,
  timeout_patterns, timeout_rule, unknown_actions, unknown_cause,
}
use ai_support_engineering_p.Services.Patterns.{Pattern, occurs}
use mathlib.Core.List.{Memᴰ}

module _ (wide : ℕ → Bool) (content : Text) where
  abbrev pub Shows : List Pattern → Type 0
  Shows patterns = (p : Pattern) × Memᴰ p patterns × (occurs wide p content ≡ true)

  abbrev pub Lacks : List Pattern → Type 0
  Lacks patterns = (p : Pattern) → Memᴰ p patterns → occurs wide p content ≡ false

  -- What a content is taken for, its default severity, the cause and the actions that are named.
  pub data Diagnosis : IncidentClassification → Severity → Text → List Text → Type 0 where
    authentication :
        Shows authentication_patterns
        → Diagnosis IncidentClassification.authentication_error Severity.high
            authentication_rule.probable_cause authentication_rule.recommended_actions
    database :
        Lacks authentication_patterns
        → Shows database_patterns
        → Diagnosis IncidentClassification.database_connection_error Severity.critical
            database_rule.probable_cause database_rule.recommended_actions
    timeout :
        Lacks authentication_patterns
        → Lacks database_patterns
        → Shows timeout_patterns
        → Diagnosis IncidentClassification.timeout_error Severity.medium timeout_rule.probable_cause
            timeout_rule.recommended_actions
    unknown :
        Lacks authentication_patterns
        → Lacks database_patterns
        → Lacks timeout_patterns
        → Diagnosis IncidentClassification.unknown_error Severity.medium unknown_cause
            unknown_actions

  matches-Shows : (rule : AnalysisRule) → matches wide rule content ≡ true → Shows rule.patterns
  unfolding matches
  matches-Shows rule h = any-Mem (λ p. occurs wide p content) rule.patterns h

  matches-Lacks : (rule : AnalysisRule) → matches wide rule content ≡ false → Lacks rule.patterns
  unfolding matches
  matches-Lacks rule h p m = none-Mem (λ q. occurs wide q content) rule.patterns h m

-- The severity of a response: the caller's if there is one, else the default.
pub data Rated (default : Severity) : Option Severity → Severity → Type 0 where
  given : {s : Severity} → Rated default (some s) s
  rated : Rated default none default

-- What an analysis says of an incident.
pub record Analysis (wide : ℕ → Bool) (incident : IncidentRequest)
    (response : IncidentAnalysisResponse) : Type 0 where
  pub default : Severity
  pub diagnosis :
      Diagnosis wide
        (incident.error ++ line_feed ∷ incident.log)
        response.classification
        default
        response.probable_cause
        response.recommended_actions
  pub severity : Rated default incident.severity response.severity

module _ (wide : ℕ → Bool) (incident : IncidentRequest) where
  with_default :
      (default : Severity) (severity : Option Severity)
      → Rated default severity (or_else severity default)
  with_default default none = Rated.rated
  with_default default (some s) = Rated.given

  -- An incident is taken for a failed authentication if a pattern of those occurs in its error, a
  -- line feed and its log, else for a lost database connection if one of those does, else for a
  -- timeout if one of those does, and else for an unknown failure, and is answered with the cause
  -- and the actions for that. The severity is the caller's if there is one, whatever the failure,
  -- and else high, critical, medium and medium in this order.
  pub analyze_incident-Analysis : Analysis wide incident (analyze_incident wide incident)
  unfolding analyze_incident first_answer
  analyze_incident-Analysis = elim (Bool-cases (matches wide authentication_rule content)) [
    | inl a ↦ rw a (record {
      default = Severity.high;
      diagnosis = Diagnosis.authentication (matches-Shows wide content authentication_rule a);
      severity = with_default Severity.high incident.severity;
    })
    | inr a ↦ rw a (elim (Bool-cases (matches wide database_rule content)) [
      | inl d ↦ rw d (record {
        default = Severity.critical;
        diagnosis =
            Diagnosis.database (matches-Lacks wide content authentication_rule a)
              (matches-Shows wide content database_rule d);
        severity = with_default Severity.critical incident.severity;
      })
      | inr d ↦ rw d (elim (Bool-cases (matches wide timeout_rule content)) [
        | inl t ↦ rw t (record {
          default = Severity.medium;
          diagnosis =
              Diagnosis.timeout (matches-Lacks wide content authentication_rule a)
                (matches-Lacks wide content database_rule d)
                (matches-Shows wide content timeout_rule t);
          severity = with_default Severity.medium incident.severity;
        })
        | inr t ↦ rw t (record {
          default = Severity.medium;
          diagnosis =
              Diagnosis.unknown (matches-Lacks wide content authentication_rule a)
                (matches-Lacks wide content database_rule d)
                (matches-Lacks wide content timeout_rule t);
          severity = with_default Severity.medium incident.severity;
        })
      ])
    ])
  ]
    where
      content : Text
      content = incident.error ++ line_feed ∷ incident.log
