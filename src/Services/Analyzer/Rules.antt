-- ===== src/Services/Analyzer/Rules.antt =====
-- `RULES` of services/analyzer.py: the patterns in the order of the source, and what a rule answers.
use ai_support_engineering_p.Common.{List, Text, [], codes, ◌∷◌}
use ai_support_engineering_p.Db.{IncidentClassification, Severity}
use ai_support_engineering_p.Services.Patterns.{
  Pattern, ahead, always, anything, boundary, chain, either, letter, maybe,
}

pub record AnalysisRule : Type 0 where
  pub classification : IncidentClassification
  pub default_severity : Severity
  pub patterns : List Pattern
  pub probable_cause : Text
  pub recommended_actions : List Text

abbrev pub word : Text → Pattern
word [] = always
word (c ∷ []) = letter c
word (c ∷ d ∷ s) = chain (letter c) (word (d ∷ s))

abbrev pub authentication_patterns : List Pattern
authentication_patterns =
    chain boundary (chain (word (codes "jwt")) boundary)
    ∷ chain boundary (chain (word (codes "json web token")) boundary)
    ∷ chain boundary (
        chain
          (either (word (codes "invalid"))
            (either (word (codes "expired")) (word (codes "malformed"))))
          (chain (word (codes " "))
            (chain (maybe (word (codes "access "))) (chain (word (codes "token")) boundary))))
    ∷ chain boundary (
        chain (word (codes "token "))
          (chain (maybe (word (codes "has "))) (chain (word (codes "expired")) boundary)))
    ∷ chain boundary (
        chain (word (codes "authentication ")) (
          chain
            (either (word (codes "failed"))
              (either (word (codes "error")) (word (codes "failure"))))
            boundary))
    ∷ chain boundary (
        chain (word (codes "unauthori"))
          (chain (either (letter 115) (letter 122)) (chain (word (codes "ed")) boundary)))
    ∷ chain boundary (chain (word (codes "bearer token")) boundary)
    ∷ chain boundary (chain (word (codes "signature verification failed")) boundary)
    ∷ chain boundary (chain (word (codes "401")) boundary)
    ∷ []

abbrev pub authentication_rule : AnalysisRule
authentication_rule = record {
  classification = IncidentClassification.authentication_error;
  default_severity = Severity.high;
  patterns = authentication_patterns;
  probable_cause =
      codes
        "The request could not be authenticated because its credentials or token were missing, invalid, expired, or failed verification.";
  recommended_actions =
      codes "Verify that the client sends a valid bearer token."
      ∷ codes "Check token expiry, issuer, audience, and signing-key configuration."
      ∷ codes "Review authentication service logs for rejected credentials."
      ∷ [];
}

abbrev pub database_patterns : List Pattern
database_patterns =
    chain boundary (chain (word (codes "database connection")) boundary)
    ∷ chain boundary (
        chain
          (either (word (codes "could not"))
            (either (word (codes "unable to")) (word (codes "failed to"))))
          (chain (word (codes " connect to ")) (
            chain (maybe (word (codes "the "))) (
              chain
                (either (word (codes "database")) (
                  either (chain (word (codes "postgres")) (maybe (word (codes "ql"))))
                    (either (word (codes "mysql")) (word (codes "mariadb")))))
                boundary))))
    ∷ chain
        (ahead (
          chain anything (
            chain boundary (
              chain
                (either (word (codes "database")) (
                  either (chain (word (codes "postgres")) (maybe (word (codes "ql")))) (
                    either (word (codes "mysql")) (
                      either (word (codes "mariadb"))
                        (either (word (codes "oracle")) (word (codes "sql server")))))))
                boundary))))
        (ahead (
          chain anything (
            chain boundary (
              chain (word (codes "connection "))
                (chain (either (word (codes "refused")) (word (codes "reset"))) boundary)))))
    ∷ chain boundary (
        chain (word (codes "connection pool ")) (
          chain
            (either (word (codes "exhausted"))
              (either (word (codes "timeout")) (word (codes "timed out"))))
            boundary))
    ∷ chain
        (ahead (
          chain anything (
            chain boundary (
              chain
                (either (chain (word (codes "psycopg")) (maybe (word (codes "2"))))
                  (word (codes "sqlalchemy.exc")))
                (chain (word (codes ".")) (
                  chain (either (word (codes "operationalerror")) (word (codes "interfaceerror")))
                    boundary))))))
        (ahead (
          chain anything (
            chain boundary (
              chain
                (either (word (codes "connection refused")) (
                  either (word (codes "could not connect"))
                    (word (codes "server closed the connection"))))
                boundary))))
    ∷ chain boundary (chain (word (codes "too many connections")) boundary)
    ∷ []

abbrev pub database_rule : AnalysisRule
database_rule = record {
  classification = IncidentClassification.database_connection_error;
  default_severity = Severity.critical;
  patterns = database_patterns;
  probable_cause =
      codes
        "The application could not establish or retain a database connection, possibly because the database is unavailable, unreachable, or out of connections.";
  recommended_actions =
      codes "Confirm that the database service is running and reachable."
      ∷ codes "Validate the connection settings and credentials."
      ∷ codes "Inspect database and connection-pool capacity and logs."
      ∷ [];
}

abbrev pub timeout_patterns : List Pattern
timeout_patterns =
    chain boundary (
      chain (word (codes "time")) (
        chain (maybe (word (codes "d")))
          (chain (maybe (either (letter 32) (letter 45))) (chain (word (codes "out")) boundary))))
    ∷ chain boundary (
        chain (word (codes "timeout"))
          (chain (maybe (either (word (codes "error")) (word (codes "exception")))) boundary))
    ∷ chain boundary (chain (word (codes "deadline exceeded")) boundary)
    ∷ chain boundary (chain (word (codes "gateway timeout")) boundary)
    ∷ chain boundary (chain (word (codes "504")) boundary)
    ∷ []

abbrev pub timeout_rule : AnalysisRule
timeout_rule = record {
  classification = IncidentClassification.timeout_error;
  default_severity = Severity.medium;
  patterns = timeout_patterns;
  probable_cause =
      codes
        "An operation exceeded its allowed response time, likely because a dependency was slow, unavailable, or the configured deadline was too short.";
  recommended_actions =
      codes "Identify the timed-out dependency and check its health and latency."
      ∷ codes "Review timeout thresholds against expected operation duration."
      ∷ codes "Inspect resource saturation and recent latency changes."
      ∷ [];
}

-- `RULES`
abbrev pub rules : List AnalysisRule
rules = authentication_rule ∷ database_rule ∷ timeout_rule ∷ []

abbrev pub unknown_cause : Text
unknown_cause = codes "The supplied error and log do not match a known Phase 1 classification rule."

abbrev pub unknown_actions : List Text
unknown_actions =
    codes "Review the complete application logs and stack trace."
    ∷ codes "Correlate the incident with recent deployments or configuration changes."
    ∷ codes "Add a new deterministic rule if this failure pattern recurs."
    ∷ []
