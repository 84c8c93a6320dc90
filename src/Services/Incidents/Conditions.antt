-- ===== src/Services/Incidents/Conditions.antt =====
-- The conditions of `IncidentRepository.list`.
use ai_support_engineering_p.Common.{
  Option, Text, arith, none, refl, some, some_same, sym, text_eq, text_eq_refl, text_eq→eq, true,
  ◌∙◌, ◌≡◌,
}
use ai_support_engineering_p.Db.{IncidentClassification, IncidentRecord, Severity}
use ai_support_engineering_p.Services.Incidents.{
  Filter, classification_is, selected, severity_is, text_is,
}
use ai_support_engineering_p.Workers.Processor.{classification_value, severity_value}
use mathlib.Core.Logic.{◌↔◌}

-- An incident has each of the values that are asked for.
pub record Meets (filter : Filter) (r : IncidentRecord) : Type 0 where
  pub service : (s : Text) → filter.service ≡ some s → r.service ≡ s
  pub severity : (s : Severity) → filter.severity ≡ some s → r.resolved_severity ≡ s
  pub classification :
      (s : IncidentClassification) → filter.classification ≡ some s → r.classification ≡ s

severity_eq : (s t : Severity) → text_eq (severity_value s) (severity_value t) ≡ true → s ≡ t
severity_eq Severity.low Severity.low h = refl
severity_eq Severity.low Severity.medium h = cc
severity_eq Severity.low Severity.high h = cc
severity_eq Severity.low Severity.critical h = cc
severity_eq Severity.medium Severity.low h = cc
severity_eq Severity.medium Severity.medium h = refl
severity_eq Severity.medium Severity.high h = cc
severity_eq Severity.medium Severity.critical h = cc
severity_eq Severity.high Severity.low h = cc
severity_eq Severity.high Severity.medium h = cc
severity_eq Severity.high Severity.high h = refl
severity_eq Severity.high Severity.critical h = cc
severity_eq Severity.critical Severity.low h = cc
severity_eq Severity.critical Severity.medium h = cc
severity_eq Severity.critical Severity.high h = cc
severity_eq Severity.critical Severity.critical h = refl

classification_eq :
    (s t : IncidentClassification)
    → text_eq (classification_value s) (classification_value t) ≡ true
    → s ≡ t
classification_eq IncidentClassification.authentication_error
      IncidentClassification.authentication_error h =
    refl
classification_eq IncidentClassification.authentication_error
      IncidentClassification.database_connection_error h =
    cc
classification_eq IncidentClassification.authentication_error IncidentClassification.timeout_error
      h =
    cc
classification_eq IncidentClassification.authentication_error IncidentClassification.unknown_error
      h =
    cc
classification_eq IncidentClassification.database_connection_error
      IncidentClassification.authentication_error h =
    cc
classification_eq IncidentClassification.database_connection_error
      IncidentClassification.database_connection_error h =
    refl
classification_eq IncidentClassification.database_connection_error
      IncidentClassification.timeout_error h =
    cc
classification_eq IncidentClassification.database_connection_error
      IncidentClassification.unknown_error h =
    cc
classification_eq IncidentClassification.timeout_error IncidentClassification.authentication_error
      h =
    cc
classification_eq IncidentClassification.timeout_error
      IncidentClassification.database_connection_error h =
    cc
classification_eq IncidentClassification.timeout_error IncidentClassification.timeout_error h = refl
classification_eq IncidentClassification.timeout_error IncidentClassification.unknown_error h = cc
classification_eq IncidentClassification.unknown_error IncidentClassification.authentication_error
      h =
    cc
classification_eq IncidentClassification.unknown_error
      IncidentClassification.database_connection_error h =
    cc
classification_eq IncidentClassification.unknown_error IncidentClassification.timeout_error h = cc
classification_eq IncidentClassification.unknown_error IncidentClassification.unknown_error h = refl

text_is_iff :
    (o : Option Text) (t : Text) → (text_is o t ≡ true) ↔ ((s : Text) → o ≡ some s → t ≡ s)
text_is_iff none t = (λ h s e. cc, λ h. refl)
text_is_iff (some u) t =
    (λ h s e. sym (text_eq→eq u t h) ∙ some_same e, λ h. rw (h u refl) (text_eq_refl u))

severity_is_iff :
    (o : Option Severity) (t : Severity)
    → (severity_is o t ≡ true) ↔ ((s : Severity) → o ≡ some s → t ≡ s)
severity_is_iff none t = (λ h s e. cc, λ h. refl)
severity_is_iff (some u) t = (
  λ h s e. sym (severity_eq u t h) ∙ some_same e,
  λ h. rw (h u refl) (text_eq_refl (severity_value u)),
)

classification_is_iff :
    (o : Option IncidentClassification) (t : IncidentClassification)
    → (classification_is o t ≡ true) ↔ ((s : IncidentClassification) → o ≡ some s → t ≡ s)
classification_is_iff none t = (λ h s e. cc, λ h. refl)
classification_is_iff (some u) t = (
  λ h s e. sym (classification_eq u t h) ∙ some_same e,
  λ h. rw (h u refl) (text_eq_refl (classification_value u)),
)

pub selected_iff :
    (filter : Filter) (r : IncidentRecord) → (selected filter r ≡ true) ↔ Meets filter r
selected_iff filter r = (
  λ h.
      let a : text_is filter.service r.service ≡ true = ground arith in
      let b : severity_is filter.severity r.resolved_severity ≡ true = ground arith in
      let c : classification_is filter.classification r.classification ≡ true = ground arith in
      record {
        service = (text_is_iff filter.service r.service).0 a;
        severity = (severity_is_iff filter.severity r.resolved_severity).0 b;
        classification = (classification_is_iff filter.classification r.classification).0 c;
      },
  λ m.
      rw
        (
          (text_is_iff filter.service r.service).1 m.service,
          (severity_is_iff filter.severity r.resolved_severity).1 m.severity,
          (classification_is_iff filter.classification r.classification).1 m.classification,
        )
        refl,
)
