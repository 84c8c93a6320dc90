-- ===== src/Services/Incidents.antt =====
-- `analyze_and_persist_incident` of services/incidents.py and `IncidentRepository` of
-- repositories/incidents.py.
pub mod Stored
pub mod Announced
pub mod Conditions
pub mod Positions
pub mod Pages
use ai_support_engineering_p.Agent.Models.{IncidentCreatedEvent}
use ai_support_engineering_p.Common.{
  Bool, List, Option, String, Text, [], drop, find, if◌then◌else◌, keep, leb, length, none, some,
  sorted, take, text_eq, true, ℕ, ◌&&◌, ◌++◌, ◌+◌, ◌==◌, ◌∷◌,
}
use ai_support_engineering_p.Common.Exec.{Result, attempt, err, ok, pure, ◌>>=◌}
use ai_support_engineering_p.Db.{
  Db, IncidentClassification, IncidentRecord, OutboxEventRecord, Severity,
}
use ai_support_engineering_p.Db.Json.{Value}
use ai_support_engineering_p.Events.Dispatcher.{Dispatch, dispatch_event}
use ai_support_engineering_p.Events.Outbox.{Broker, OutboxWorld, add_event}
use ai_support_engineering_p.Services.Analyzer.{
  IncidentAnalysisResponse, IncidentRequest, analyze_incident,
}
use ai_support_engineering_p.Workers.Processor.{classification_value, severity_value}

pub record Intake : Type 0 where
  -- which characters beyond ASCII are letters or digits
  pub wide : ℕ → Bool
  -- `uuid4()`, the next value of the table's sequence, and `model_dump`
  pub new_event_id : ℕ → String
  pub next_incident : ℕ → ℕ
  pub payload_of : IncidentCreatedEvent → Value
  -- the text of the exception for an event that is not valid
  pub invalid_event : Text
  pub topic : String

-- The row that `create` stages.
abbrev pub incident_row : ℕ → ℕ → IncidentRequest → IncidentAnalysisResponse → IncidentRecord
incident_row i now incident analysis = record {
  id = i;
  service = incident.service;
  error = incident.error;
  log = incident.log;
  requested_severity = incident.severity;
  resolved_severity = analysis.severity;
  classification = analysis.classification;
  probable_cause = analysis.probable_cause;
  recommended_actions = analysis.recommended_actions;
  created_at = now;
}

abbrev pub create : IncidentRecord → Db → Db
create r db = record db { incidents = db.incidents ++ r ∷ [] }

abbrev pub get : ℕ → Db → Option IncidentRecord
get incident_id db = find (λ r. r.id == incident_id) db.incidents

-- The conditions of `list`, where each is given.
abbrev pub text_is : Option Text → Text → Bool
text_is none t = true
text_is (some s) t = text_eq s t

abbrev pub severity_is : Option Severity → Severity → Bool
severity_is none t = true
severity_is (some s) t = text_eq (severity_value s) (severity_value t)

abbrev pub classification_is : Option IncidentClassification → IncidentClassification → Bool
classification_is none t = true
classification_is (some s) t = text_eq (classification_value s) (classification_value t)

pub record Filter : Type 0 where
  pub service : Option Text
  pub severity : Option Severity
  pub classification : Option IncidentClassification

abbrev pub selected : Filter → IncidentRecord → Bool
selected filter r =
    text_is filter.service r.service
    && (severity_is filter.severity r.resolved_severity
        && classification_is filter.classification r.classification)

-- `.order_by(IncidentRecord.id.desc())`
abbrev pub newer : IncidentRecord → IncidentRecord → Bool
newer r s = leb s.id r.id

-- `list`
unfoldable pub list_incidents : Filter → ℕ → ℕ → Db → List IncidentRecord
list_incidents filter limit offset db =
    take limit (drop offset (sorted newer (keep (selected filter) db.incidents)))

module _ (broker : Broker) (intake : Intake) where
  -- `IncidentCreatedEvent.create`
  abbrev pub created_event : ℕ → IncidentRecord → IncidentCreatedEvent
  created_event n r = record {
    event_id = intake.new_event_id n;
    event_type = "incident.created";
    occurred_at = broker.current n;
    incident_id = r.id;
    service = r.service;
    classification = r.classification;
    severity = r.resolved_severity;
  }

  -- The limits of the event's fields.
  abbrev pub is_valid_event : IncidentCreatedEvent → Bool
  is_valid_event event =
      leb 1 event.incident_id && (leb 1 (length event.service) && leb (length event.service) 100)

  -- The row of the outbox; `add_event` gives the columns with a default.
  abbrev pub event_row : IncidentCreatedEvent → OutboxEventRecord
  event_row event = record {
    event_id = event.event_id;
    incident_id = event.incident_id;
    event_type = event.event_type;
    topic = intake.topic;
    payload = intake.payload_of event;
    attempts = 0;
    next_attempt_at = event.occurred_at;
    last_error = none;
    published_at = none;
    created_at = event.occurred_at;
  }

  abbrev pub new_row : IncidentRequest → IncidentAnalysisResponse → ℕ → IncidentRecord
  new_row incident analysis n =
      incident_row (intake.next_incident n) (broker.current n) incident analysis

  -- What the transaction commits.
  unfoldable pub both_rows : IncidentRecord → ℕ → Db → Result Text (IncidentCreatedEvent × Db)
  both_rows r n db =
      let event = created_event n r in
      if is_valid_event event
      then ok (event, add_event broker (broker.current n) (event_row event) (create r db))
      else err intake.invalid_event

  abbrev pub committed :
      OutboxWorld
      → Result Text (IncidentCreatedEvent × Db)
      → Result Text IncidentCreatedEvent × OutboxWorld
  committed w (ok (event, db)) = (ok event, record w { db = db; tick = w.tick + 1 })
  committed w (err message) = (err message, record w { tick = w.tick + 1 })

  -- The transaction: the driver may raise in it, and then nothing is written.
  unfoldable pub persist_incident :
      IncidentRequest → IncidentAnalysisResponse → Dispatch IncidentCreatedEvent
  persist_incident incident analysis w = committed w (elim (broker.outbox_fault w.tick) [
    | some message ↦ err message
    | none ↦ both_rows (new_row incident analysis w.tick) w.tick w.db
  ])

  unfoldable pub analyze_and_persist_incident : IncidentRequest → Dispatch IncidentAnalysisResponse
  analyze_and_persist_incident incident = do
    event ← persist_incident incident (analyze_incident intake.wide incident)
    outcome ← attempt (dispatch_event broker event.event_id)
    pure (analyze_incident intake.wide incident)
