-- ===== src/Events/Dispatched.antt =====
-- What one run of `dispatch_pending` does to the outbox, whether it returns or raises.
use ai_support_engineering_p.Common.{
  Bool, List, Option, Option-cases, String, Text, [], arith, false, find, find_holds, if◌then◌else◌,
  inl, inr, none, refl, some, sym, true, ℕ, ◌+◌, ◌∷◌, ◌≡◌,
}
use ai_support_engineering_p.Common.Exec.{Result, err, ok, pure}
use ai_support_engineering_p.Common.Exec.Triple.{
  Ends, Triple, Triple-bind, Triple-mono, Triple-pure,
}
use ai_support_engineering_p.Db.{Db, OutboxEventRecord}
use ai_support_engineering_p.Events.Delivery.{
  ReachedBroker, Sound, deferred-Sound, one_for, pending_id, published-Sound, published_count,
}
use ai_support_engineering_p.Events.Dispatcher.{
  Dispatch, DispatchOutcome, defer_row, deliver, dispatch_batch, dispatch_event, dispatch_found,
  dispatch_pending, publish_row, query, read, send, settle_event,
}
use ai_support_engineering_p.Events.Outbox.{
  Broker, OutboxWorld, get_for_dispatch, is_pending, is_published,
}
use mathlib.Core.List.{Memᴰ}

nothing_added : (n : ℕ) → n + 0 ≡ n
nothing_added n = omega arith

one_more : (n c : ℕ) → n + (c + 1) ≡ n + c + 1
one_more n c = omega arith

module _ (broker : Broker) (old : List OutboxEventRecord) where
  abbrev At : ℕ → OutboxWorld → Type 0
  At n w = Sound broker old n w.db w.sent

  -- Where it raises, some of the events are published.
  abbrev Stopped : Text → OutboxWorld → Type 0
  Stopped e w = (n : ℕ) × At n w

  abbrev Answering :
      {A : Type 0} → (OutboxWorld → Type 0) → Dispatch A → (A → OutboxWorld → Type 0) → Type 0
  Answering P m Q = Triple P m Q Stopped

  deliver-Sound :
      (n : ℕ) (r : OutboxEventRecord) (answer : Option Text) (anyway : Bool) (w : OutboxWorld)
      → At n w
      → At n (deliver broker r answer anyway w)
  deliver-Sound n r none anyway w s = record {
    reached = λ q m p. Memᴰ.tail (s.reached q m p);
    total = s.total;
    stay = s.stay;
  }
  deliver-Sound n r (some message) true w s = record {
    reached = λ q m p. Memᴰ.tail (s.reached q m p);
    total = s.total;
    stay = s.stay;
  }
  deliver-Sound n r (some message) false w s = s

  query-Ends :
      {A : Type 0} (Q : A → OutboxWorld → Type 0) (fault : Option Text) (w : OutboxWorld) (a : A)
      (db : Db)
      → ((n : ℕ) × At n w)
      → Q a (record w { db = db; tick = w.tick + 1 })
      → Ends Q Stopped (elim fault [
        | some message ↦ (err message, record w { tick = w.tick + 1 })
        | none ↦ (ok a, record w { db = db; tick = w.tick + 1 })
      ])
  query-Ends Q none w a db s q = q
  query-Ends Q (some message) w a db s q = s

  query_rule :
      {A : Type 0} (P : OutboxWorld → Type 0) (Q : A → OutboxWorld → Type 0)
      (f : OutboxWorld → A × Db)
      → ((w : OutboxWorld) → P w → (n : ℕ) × At n w)
      → ((w : OutboxWorld) → P w → Q (f w).0 (record w { db = (f w).1; tick = w.tick + 1 }))
      → Answering P (query broker f) Q
  query_rule P Q f sound h = record {
    at = λ w p. query-Ends Q (broker.outbox_fault w.tick) w (f w).0 (f w).1 (sound w p) (h w p);
  }

  read_rule :
      {A : Type 0} (P : OutboxWorld → Type 0) (f : OutboxWorld → A)
      → ((w : OutboxWorld) → P w → P (record w { tick = w.tick + 1 }))
      → Answering P (read broker f) (λ a. P)
  read_rule P f h = record { at = λ w p. h w p }

  -- The row is there, and the broker has its message.
  abbrev Handed : ℕ → String → OutboxWorld → Type 0
  Handed n x w =
      At n w
      × ((a : OutboxEventRecord) × (find (is_pending x) w.db.outbox ≡ some a))
      × Memᴰ x w.sent

  abbrev After : ℕ → Option Text → String → OutboxWorld → Type 0
  After n none x w = Handed n x w
  After n (some message) x w = At n w

  abbrev Outcomes : ℕ → DispatchOutcome → OutboxWorld → Type 0
  Outcomes n outcome w = At (n + one_for broker old outcome) w

  settle_event-Outcomes :
      (n : ℕ) (x : String) (answer : Option Text)
      → Answering (After n answer x) (settle_event broker x answer) (Outcomes n)
  unfolding settle_event defer_row publish_row
  settle_event-Outcomes n x none =
      Triple-bind (λ now. Handed n x) (read_rule (Handed n x) _ (λ w h. h))
        λ now.
          query_rule (Handed n x) (Outcomes n) _ (λ w h. (n, h.0))
            λ w h.
              published-Sound broker old n x (publish_row broker now) w.db w.sent h.1.0 (λ r. refl)
                (λ r. refl) h.1.1 h.2 h.0
  settle_event-Outcomes n x (some message) =
      Triple-bind (λ now. At n) (read_rule (At n) _ (λ w h. h))
        λ now.
          query_rule (At n) (Outcomes n) _ (λ w h. (n, h))
            λ w h. rw (nothing_added n) (
              deferred-Sound broker old n x (defer_row broker message now) w.db w.sent (λ r. refl)
                h)

  -- What the query for the row tells of it.
  abbrev Looked : ℕ → String → Option OutboxEventRecord → OutboxWorld → Type 0
  Looked n x none w = At n w
  Looked n x (some r) w = At n w × (find (is_pending x) w.db.outbox ≡ some r)

  looked :
      (n : ℕ) (x : String) (w : OutboxWorld) (locked : Bool)
      → At n w
      → Looked n x
          (if locked then none else find (is_pending x) w.db.outbox)
          (record w { tick = w.tick + 1 })
  looked n x w true h = h
  looked n x w false h = elim (Option-cases (find (is_pending x) w.db.outbox)) [
    | inl e ↦ rw e h
    | inr (r, e) ↦ rw e (h, e)
  ]

  sent-After :
      (n : ℕ) (x : String) (r : OutboxEventRecord) (answer : Option Text) (anyway : Bool)
      (w : OutboxWorld)
      → At n w
      → find (is_pending x) w.db.outbox ≡ some r
      → After n answer x (deliver broker r answer anyway w)
  sent-After n x r none anyway w h e = (
    deliver-Sound n r none anyway w h,
    (r, e),
    Memᴰ.head (sym (pending_id x r (find_holds (is_pending x) w.db.outbox e))),
  )
  sent-After n x r (some message) anyway w h e = deliver-Sound n r (some message) anyway w h

  dispatch_found-Outcomes :
      (n : ℕ) (x : String) (row : Option OutboxEventRecord)
      → Answering (Looked n x row) (dispatch_found broker x row) (Outcomes n)
  unfolding send
  dispatch_found-Outcomes n x none = Triple-pure _ (λ w h. rw (nothing_added n) h)
  dispatch_found-Outcomes n x (some r) =
      Triple-bind (λ answer. After n answer x)
        (record {
          at = λ w h.
              sent-After n x r (broker.publish w.tick r.payload r.topic)
                (broker.arrived_anyway w.tick) w h.0 h.1;
        })
        (settle_event-Outcomes n x)

  pub dispatch_event-Outcomes :
      (n : ℕ) (x : String) → Answering (At n) (dispatch_event broker x) (Outcomes n)
  unfolding dispatch_event get_for_dispatch
  dispatch_event-Outcomes n x =
      Triple-bind (Looked n x)
        (query_rule (At n) (Looked n x) _ (λ w h. (n, h))
          (λ w h. looked n x w (broker.is_locked w.tick x) h))
        (dispatch_found-Outcomes n x)

  -- How the loop goes on from the outcome of one event.
  counted :
      (n c : ℕ) (k : ℕ → Dispatch ℕ)
      → ((c' : ℕ) → Answering (At (n + c')) (k c') (λ m. At (n + m)))
      → (outcome : DispatchOutcome)
      → Answering
          (Outcomes (n + c) outcome)
          (elim outcome [
            | DispatchOutcome.published ↦ k (c + 1)
            | DispatchOutcome.deferred ↦ pure c
            | DispatchOutcome.unavailable ↦ k c
          ])
          (λ m. At (n + m))
  counted n c k h DispatchOutcome.published =
      Triple-mono (λ w s. rw (one_more n c) s) (λ a w s. s) (λ e w s. s) (h (c + 1))
  counted n c k h DispatchOutcome.deferred = Triple-pure c (λ w s. rw (← nothing_added (n + c)) s)
  counted n c k h DispatchOutcome.unavailable =
      Triple-mono (λ w s. rw (← nothing_added (n + c)) s) (λ a w s. s) (λ e w s. s) (h c)

  -- `c` of the events are published since there were `n`.
  dispatch_batch-At :
      (n : ℕ) (ids : List String) (c : ℕ)
      → Answering (At (n + c)) (dispatch_batch broker ids c) (λ m. At (n + m))
  unfolding dispatch_batch
  dispatch_batch-At n [] c = Triple-pure _ (λ w h. h)
  dispatch_batch-At n (x ∷ ids) c =
      Triple-bind (Outcomes (n + c)) (dispatch_event-Outcomes (n + c) x)
        (counted n c (dispatch_batch broker ids) (dispatch_batch-At n ids))

  dispatch_pending-At :
      (n batch_size : ℕ) → Answering (At n) (dispatch_pending broker batch_size) (λ m. At (n + m))
  unfolding dispatch_pending
  dispatch_pending-At n batch_size =
      Triple-bind (λ now. At n) (read_rule (At n) _ (λ w h. h))
        λ now.
          Triple-bind (λ ids. At n) (query_rule (At n) (λ ids. At n) _ (λ w h. (n, h)) (λ w h. h))
            λ ids.
              Triple-mono (λ w h. rw (nothing_added n) h) (λ a w h. h) (λ e w h. h)
                (dispatch_batch-At n ids 0)

-- What holds after a run of `dispatch_pending` on the world `w`.
abbrev pub UnharmedBy : OutboxWorld → OutboxWorld → Type 0
UnharmedBy w w' =
    ReachedBroker w'.db w'.sent
    × ((r : OutboxEventRecord) → Memᴰ r w.db.outbox → is_published r ≡ true → Memᴰ r w'.db.outbox)

abbrev pub Dispatched : OutboxWorld → Result Text ℕ × OutboxWorld → Type 0
Dispatched w (ok n, w') = UnharmedBy w w' × (published_count w'.db ≡ published_count w.db + n)
Dispatched w (err e, w') = UnharmedBy w w'

dispatched :
    (broker : Broker) (w : OutboxWorld) (o : Result Text ℕ × OutboxWorld)
    → Ends
        (λ m v. Sound broker w.db.outbox (published_count w.db + m) v.db v.sent)
        (λ e v. (n : ℕ) × Sound broker w.db.outbox n v.db v.sent)
        o
    → Dispatched w o
dispatched broker w (ok n, w') s = ((s.reached, s.stay), s.total)
dispatched broker w (err e, w') (n, s) = (s.reached, s.stay)

-- If every event that is marked as published has reached the broker before `dispatch_pending`, this
-- holds after it, whether it returns or raises and whatever the broker and the database answer, and
-- the rows that were published are as they were. Where it returns, the number that it returns is
-- that of the events that it has newly published.
pub dispatch_pending_lem :
    (broker : Broker) (batch_size : ℕ) (w : OutboxWorld)
    → ReachedBroker w.db w.sent
    → Dispatched w (dispatch_pending broker batch_size w)
dispatch_pending_lem broker batch_size w h = dispatched broker w _ (
    (dispatch_pending-At broker w.db.outbox (published_count w.db) batch_size).at w
      (record { reached = h; total = refl; stay = λ r m p. m }))
