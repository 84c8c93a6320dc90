-- ===== src/Services/Analyzer.antt =====
-- `AnalysisRule.matches` and `analyze_incident` of services/analyzer.py.
pub mod Rules
pub mod Ordered
pub mod Cased
use ai_support_engineering_p.Common.{
  Bool, List, Option, Text, [], any, if◌then◌else◌, or_else, ℕ, ◌++◌, ◌∷◌,
}
use ai_support_engineering_p.Db.{IncidentClassification, Severity}
use ai_support_engineering_p.Knowledge.Whitespace.{line_feed}
use ai_support_engineering_p.Services.Analyzer.Rules.{
  AnalysisRule, rules, unknown_actions, unknown_cause,
}
use ai_support_engineering_p.Services.Patterns.{occurs}

-- A request that pydantic has validated.
pub record IncidentRequest : Type 0 where
  pub service : Text
  pub error : Text
  pub log : Text
  pub severity : Option Severity

pub record IncidentAnalysisResponse : Type 0 where
  pub classification : IncidentClassification
  pub severity : Severity
  pub probable_cause : Text
  pub recommended_actions : List Text

abbrev pub content_of : IncidentRequest → Text
content_of incident = incident.error ++ line_feed ∷ incident.log

abbrev pub answer : Option Severity → AnalysisRule → IncidentAnalysisResponse
answer severity rule = record {
  classification = rule.classification;
  severity = or_else severity rule.default_severity;
  probable_cause = rule.probable_cause;
  recommended_actions = rule.recommended_actions;
}

abbrev pub unknown_answer : Option Severity → IncidentAnalysisResponse
unknown_answer severity = record {
  classification = IncidentClassification.unknown_error;
  severity = or_else severity Severity.medium;
  probable_cause = unknown_cause;
  recommended_actions = unknown_actions;
}

module _ (wide : ℕ → Bool) where
  -- `matches`
  unfoldable pub matches : AnalysisRule → Text → Bool
  matches rule content = any (λ pattern. occurs wide pattern content) rule.patterns

  -- The loop over the rules.
  unfoldable pub first_answer :
      List AnalysisRule → Option Severity → Text → IncidentAnalysisResponse
  first_answer [] severity content = unknown_answer severity
  first_answer (rule ∷ rest) severity content =
      if matches rule content then answer severity rule else first_answer rest severity content

  unfoldable pub analyze_incident : IncidentRequest → IncidentAnalysisResponse
  analyze_incident incident = first_answer rules incident.severity (content_of incident)
