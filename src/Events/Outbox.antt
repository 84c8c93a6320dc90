-- ===== src/Events/Outbox.antt =====
-- `OutboxRepository` of repositories/outbox.py, and what the dispatcher meets outside.
use ai_support_engineering_p.Common.{
  Bool, List, Option, String, Text, [], find, if◌then◌else◌, is_some, keep, leb, ltb, map, none,
  not, take, ℕ, ◌&&◌, ◌++◌, ◌==◌, ◌||◌, ◌∷◌,
}
use ai_support_engineering_p.Db.{Db, OutboxEventRecord}
use ai_support_engineering_p.Db.Json.{Value}
use text.Mathlib.Text.{◌==◌ as str_eq}

pub record Broker : Type 0 where
  -- `datetime.now(UTC)`, and the clock's units in a second
  pub current : ℕ → ℕ
  pub second : ℕ
  -- the error, if any, that the session raises at this tick
  pub outbox_fault : ℕ → Option Text
  -- rows that another dispatcher holds, which `skip_locked` passes over
  pub is_locked : ℕ → String → Bool
  -- what `model_validate` of the payload or `producer.publish` raises, as text
  pub publish : ℕ → Value → String → Option Text
  -- whether the broker has the message although `publish` raised
  pub arrived_anyway : ℕ → Bool
  -- the database's order of texts
  pub id_before : String → String → Bool

-- The database, the messages that the broker has, and the tick.
pub record OutboxWorld : Type 0 where
  pub db : Db
  pub sent : List String
  pub tick : ℕ

abbrev pub is_published : OutboxEventRecord → Bool
is_published r = is_some r.published_at

-- The row of an event that is not published yet.
abbrev pub is_pending : String → OutboxEventRecord → Bool
is_pending x r = str_eq r.event_id x && not (is_published r)

module _ (broker : Broker) where
  -- `add`, with the columns' defaults.
  unfoldable pub add_event : ℕ → OutboxEventRecord → Db → Db
  add_event now r db = record db {
    outbox =
        db.outbox
        ++ record r {
          attempts = 0;
          next_attempt_at = now;
          last_error = none;
          published_at = none;
          created_at = now;
        }
          ∷ [];
  }

  unfoldable pub get_for_dispatch : ℕ → String → Db → Option OutboxEventRecord
  get_for_dispatch n x db = if broker.is_locked n x then none else find (is_pending x) db.outbox

  -- `.order_by(created_at, event_id)`.
  abbrev pub is_before : OutboxEventRecord → OutboxEventRecord → Bool
  is_before r s =
      ltb r.created_at s.created_at
      || (r.created_at == s.created_at) && broker.id_before r.event_id s.event_id

  abbrev pub insert_event_sorted :
      OutboxEventRecord → List OutboxEventRecord → List OutboxEventRecord
  insert_event_sorted r [] = r ∷ []
  insert_event_sorted r (s ∷ rows) =
      if is_before s r then s ∷ insert_event_sorted r rows else r ∷ s ∷ rows

  abbrev pub order_events : List OutboxEventRecord → List OutboxEventRecord
  order_events [] = []
  order_events (r ∷ rows) = insert_event_sorted r (order_events rows)

  abbrev pub is_due : ℕ → OutboxEventRecord → Bool
  is_due now r = not (is_published r) && leb r.next_attempt_at now

  unfoldable pub list_pending_ids : ℕ → ℕ → Db → List String
  list_pending_ids now limit db =
      map (λ r. r.event_id) (take limit (order_events (keep (is_due now) db.outbox)))
