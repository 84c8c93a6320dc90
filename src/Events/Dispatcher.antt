-- ===== src/Events/Dispatcher.antt =====
-- `OutboxDispatcher` of events/dispatcher.py.
use ai_support_engineering_p.Common.{
  Bool, List, Option, String, Text, [], if◌then◌else◌, min, modify, none, some, take, ℕ, ◌*◌, ◌+◌,
  ◌^◌, ◌∷◌,
}
use ai_support_engineering_p.Common.Exec.{Exec, attempt, err, ok, pure, ◌>>=◌}
use ai_support_engineering_p.Db.{Db, OutboxEventRecord}
use ai_support_engineering_p.Events.Outbox.{
  Broker, OutboxWorld, get_for_dispatch, is_pending, list_pending_ids,
}
use ai_support_engineering_p.Workers.Processor.{found}

pub data DispatchOutcome : Type 0 where
  published deferred unavailable : DispatchOutcome

abbrev pub Dispatch : Type 0 → Type 0
Dispatch A = Exec OutboxWorld Text A

-- `_retry_delay`, in seconds.
unfoldable pub retry_delay : ℕ → ℕ
retry_delay attempt = min (2 ^ min attempt 6) 60

module _ (broker : Broker) where
  abbrev pub read : {A : Type 0} → (OutboxWorld → A) → Dispatch A
  read f w = (ok (f w), record w { tick = w.tick + 1 })

  -- A session's query or commit, at which the driver may raise.
  abbrev pub query : {A : Type 0} → (OutboxWorld → A × Db) → Dispatch A
  query f w = elim (broker.outbox_fault w.tick) [
    | some message ↦ (err message, record w { tick = w.tick + 1 })
    | none ↦ (ok (f w).0, record w { db = (f w).1; tick = w.tick + 1 })
  ]

  -- `producer.publish`: the broker has the message where this does not raise.
  abbrev pub deliver : OutboxEventRecord → Option Text → Bool → OutboxWorld → OutboxWorld
  deliver r none anyway w = record w { sent = r.event_id ∷ w.sent; tick = w.tick + 1 }
  deliver r (some message) anyway w = record w {
    sent = if anyway then r.event_id ∷ w.sent else w.sent;
    tick = w.tick + 1;
  }

  unfoldable pub send : OutboxEventRecord → Dispatch (Option Text)
  send r w =
      let answer = broker.publish w.tick r.payload r.topic in
      (ok answer, deliver r answer (broker.arrived_anyway w.tick) w)

  unfoldable pub defer_row : Text → ℕ → OutboxEventRecord → OutboxEventRecord
  defer_row message now r = record r {
    attempts = r.attempts + 1;
    last_error = some (take 2000 message);
    next_attempt_at = now + retry_delay (r.attempts + 1) * broker.second;
  }

  unfoldable pub publish_row : ℕ → OutboxEventRecord → OutboxEventRecord
  publish_row now r = record r {
    attempts = r.attempts + 1;
    published_at = some now;
    last_error = none;
  }

  abbrev pub write_row : String → (OutboxEventRecord → OutboxEventRecord) → Db → Db
  write_row x f db = record db { outbox = modify (is_pending x) f db.outbox }

  -- The rest of the session once the broker has answered.
  unfoldable pub settle_event : String → Option Text → Dispatch DispatchOutcome
  settle_event x (some message) = do
    now ← read (λ w. broker.current w.tick)
    query (λ w. (DispatchOutcome.deferred, write_row x (defer_row message now) w.db))
  settle_event x none = do
    now ← read (λ w. broker.current w.tick)
    query (λ w. (DispatchOutcome.published, write_row x (publish_row now) w.db))

  abbrev pub dispatch_found : String → Option OutboxEventRecord → Dispatch DispatchOutcome
  dispatch_found x none = pure DispatchOutcome.unavailable
  dispatch_found x (some r) = do answer ← send r; settle_event x answer

  unfoldable pub dispatch_event : String → Dispatch DispatchOutcome
  dispatch_event x = do
    found ← query (λ w. (get_for_dispatch broker w.tick x w.db, w.db))
    dispatch_found x found

  -- The loop of `dispatch_pending` on the events that are left and the number published.
  unfoldable pub dispatch_batch : List String → ℕ → Dispatch ℕ
  dispatch_batch [] count_so_far = pure count_so_far
  dispatch_batch (x ∷ ids) count_so_far = do
    outcome ← dispatch_event x
    elim outcome [
      | DispatchOutcome.published ↦ dispatch_batch ids (count_so_far + 1)
      | DispatchOutcome.deferred ↦ pure count_so_far
      | DispatchOutcome.unavailable ↦ dispatch_batch ids count_so_far
    ]

  unfoldable pub dispatch_pending : ℕ → Dispatch ℕ
  dispatch_pending batch_size = do
    now ← read (λ w. broker.current w.tick)
    ids ← query (λ w. (list_pending_ids broker now batch_size w.db, w.db))
    dispatch_batch ids 0
