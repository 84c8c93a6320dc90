-- ===== src/Examples/Intake.antt =====
-- An incident that comes in while the event of another one waits.
use mathlib.Core.List.Memᴰ
use ai_support_engineering_p.Common.{
  String, [], ap, arith, codes, map, none, refl, some, sorted, ℕ, ◌∷◌, ◌≡◌,
}
use ai_support_engineering_p.Common.Exec.{◌>>=◌}
use ai_support_engineering_p.Db.{Db, IncidentRecord, Severity}
use ai_support_engineering_p.Db.Json.{null}
use ai_support_engineering_p.Events.Dispatcher.{dispatch_event, publish_row, send, settle_event}
use ai_support_engineering_p.Events.Outbox.{add_event, get_for_dispatch}
use ai_support_engineering_p.Examples.Data.{first_world, sample_incident}
use ai_support_engineering_p.Examples.Diagnosis.{no_letter, pool_incident}
use ai_support_engineering_p.Examples.Service.{none_published, outbox_world, sample_broker}
use ai_support_engineering_p.Services.Analyzer.{analyze_incident, first_answer, matches}
use ai_support_engineering_p.Services.Incidents.{
  Filter, Intake, analyze_and_persist_incident, both_rows, list_incidents, persist_incident,
}
use ai_support_engineering_p.Services.Incidents.Announced.{
  Announced, analyze_and_persist_incident-Announced,
}
use ai_support_engineering_p.Services.Incidents.Pages.{Page, list_incidents-Page}
use ai_support_engineering_p.Services.Incidents.Positions.{HasKeys}
use ai_support_engineering_p.Services.Incidents.Stored.{
  Recorded, analyze_and_persist_incident_lem, told,
}
use ai_support_engineering_p.Services.Patterns.{ends_of, fold_case, is_word_char, occurs}
use mathlib.Core.List.{Memᴰ}

abbrev sample_intake : Intake
sample_intake = record {
  wide = no_letter;
  new_event_id = λ n. "e-2";
  next_incident = λ n. 8;
  payload_of = λ event. null;
  invalid_event = codes "invalid event";
  topic = "incident.created";
}

analyze_and_persist_incident_lem_example :
    Recorded sample_broker sample_intake pool_incident outbox_world
      (analyze_and_persist_incident sample_broker sample_intake pool_incident outbox_world)
analyze_and_persist_incident_lem_example =
    analyze_and_persist_incident_lem sample_broker sample_intake pool_incident outbox_world

announced : Announced outbox_world
announced = record { event_for = one; reached = none_published }
  where
    one :
        (r : IncidentRecord)
        → Memᴰ r outbox_world.db.incidents
        → (x : String) × Memᴰ (x, r.id) (map told outbox_world.db.outbox)
    one r (Memᴰ.head e) = ("e-1", Memᴰ.head (ap (λ z. ("e-1", z.id)) e))
    one r (Memᴰ.tail m) = absurd (Memᴰ.not-nil m)

analyze_and_persist_incident-Announced_example :
    Announced
      (analyze_and_persist_incident sample_broker sample_intake pool_incident outbox_world).1
analyze_and_persist_incident-Announced_example =
    analyze_and_persist_incident-Announced sample_broker sample_intake pool_incident outbox_world
      announced

-- The event is published at once.
publishes :
    (analyze_and_persist_incident sample_broker sample_intake pool_incident outbox_world).1.sent
    ≡ "e-2" ∷ []
unfolding analyze_and_persist_incident persist_incident both_rows add_event dispatch_event
    get_for_dispatch send settle_event publish_row ◌>>=◌ analyze_incident first_answer matches
    occurs ends_of is_word_char fold_case
publishes = refl

abbrev high_only : Filter
high_only = record { service = none; severity = some Severity.high; classification = none }

abbrev numbered : ℕ → Severity → IncidentRecord
numbered i severity = record sample_incident { id = i; resolved_severity = severity }

-- Three incidents, of which the oldest and the newest are severe.
abbrev three_incidents : Db
three_incidents = record first_world.db {
  incidents = numbered 1 Severity.high ∷ numbered 2 Severity.low ∷ numbered 3 Severity.high ∷ [];
}

three_keys : HasKeys three_incidents.incidents
three_keys i = ground arith

list_incidents-Page_example :
    Page high_only 1 1 three_incidents (list_incidents high_only 1 1 three_incidents)
list_incidents-Page_example = list_incidents-Page high_only three_incidents 1 1 three_keys

lists_second : map (λ r. r.id) (list_incidents high_only 1 1 three_incidents) ≡ 1 ∷ []
unfolding list_incidents sorted
lists_second = refl

lists_one : map (λ r. r.id) (list_incidents high_only 5 0 outbox_world.db) ≡ 7 ∷ []
unfolding list_incidents sorted
lists_one = refl
