-- ===== src/Workers/Runner/Delivery.antt =====
-- Delivery at least once: what the offsets that were committed say of the database.
use mathlib.Core.List.Memᴰ
use ai_support_engineering_p.Agent.Env.{Env, World}
use ai_support_engineering_p.Agent.Models.{IncidentCreatedEvent}
use ai_support_engineering_p.Common.{
  Bool, Bool-cases, List, Option, String, [], any, any-snoc, false, inl, inr, none, refl, some,
  subst, sym, true, ℕ, ◌++◌, ◌∷◌, ◌≡◌,
}
use ai_support_engineering_p.Common.Exec.{Result, err, ok, pure}
use ai_support_engineering_p.Db.{Db}
use ai_support_engineering_p.Db.Json.{Value}
use ai_support_engineering_p.Workers.Kept.{Law, process_keeps}
use ai_support_engineering_p.Workers.Processor.{
  ProcessError, ProcessingOutcome, ResolutionWorkflow, marker, marks, process, with_marker,
}
use ai_support_engineering_p.Workers.Runner.{
  ConsumerCall, Message, MessageOutcome, Polled, Worker, after_handle, classified, commit_message,
  event_of, handle_event, handle_message, on_polled, run_worker, seek_to_message,
}
use ai_support_engineering_p.Workers.Runner.Settled.{Delivered, Handled, Settled, on_polled-Settled}
use mathlib.Core.List.{Memᴰ}

abbrev pub Seen : String → Db → Type 0
Seen x db = any (marks x) db.processed ≡ true

same_message :
    {m m' : Message} {b : Bool} → ConsumerCall.commit m b ≡ ConsumerCall.commit m' true → m ≡ m'
same_message h = cc

not_wait : (m : Message) → Memᴰ (ConsumerCall.commit m true) (ConsumerCall.wait ∷ []) → ⊥
not_wait m (Memᴰ.head e) = cc
not_wait m (Memᴰ.tail k) = Memᴰ.not-nil k

not_close : (m : Message) → Memᴰ (ConsumerCall.commit m true) (ConsumerCall.close ∷ []) → ⊥
not_close m (Memᴰ.head e) = cc
not_close m (Memᴰ.tail k) = Memᴰ.not-nil k

not_again :
    (m m' : Message)
    → Memᴰ (ConsumerCall.commit m' true) (seek_to_message m ∷ ConsumerCall.wait ∷ [])
    → ⊥
not_again m m' (Memᴰ.head e) = cc
not_again m m' (Memᴰ.tail k) = not_wait m' k

classified_world : (o : Result ProcessError ProcessingOutcome × World) → (classified o).1 ≡ o.1
classified_world (ok reached, w) = refl
classified_world (err (ProcessError.not_visible i), w) = refl
classified_world (err (ProcessError.deferred_processing t), w) = refl
classified_world (err (ProcessError.raised e), w) = refl

module _ (env : Env) (group : String) (raced : ℕ → Option Value)
    (deserialize : List ℕ → Option IncidentCreatedEvent) (committed : ℕ → Bool)
    (workflow : Option ResolutionWorkflow) (law : (x : String) → Law (Seen x) workflow) where
  with_marker-Seen :
      (x : String) (event : IncidentCreatedEvent) (result : Value) (db : Db)
      → any (marks event.event_id) db.processed ≡ false
      → Seen x db
      → Seen x (with_marker env group raced event result db)
  with_marker-Seen x event result db fresh h =
      rw (any-snoc (marks x) db.processed (marker env group raced event result), h) refl

  handle_event-Seen :
      (x : String) (event : Option IncidentCreatedEvent) (w : World)
      → Seen x w.db
      → Seen x (handle_event env group raced deserialize committed workflow event w).1.db
  unfolding pure
  handle_event-Seen x none w h = h
  handle_event-Seen x (some event) w h =
      rw (classified_world (process env group raced workflow event w))
        (process_keeps (Seen x) env group raced (with_marker-Seen x) workflow event w (law x) h)

  commit_message_db :
      (m : Message) (w : World) (calls : List ConsumerCall)
      → (commit_message env group raced deserialize committed workflow m w calls).world.db ≡ w.db
  commit_message_db m w calls = elim (Bool-cases (committed w.tick)) [
    | inl e ↦ rw e refl
    | inr e ↦ rw e refl
  ]

  after_handle_db :
      (m : Message) (calls : List ConsumerCall) (o : Result ProcessError MessageOutcome × World)
      → (after_handle env group raced deserialize committed workflow m calls o).world.db ≡ o.1.db
  after_handle_db m calls (err e, w) = refl
  after_handle_db m calls (ok MessageOutcome.retry, w) = refl
  after_handle_db m calls (ok MessageOutcome.processed, w) = commit_message_db m w calls
  after_handle_db m calls (ok MessageOutcome.duplicate, w) = commit_message_db m w calls
  after_handle_db m calls (ok MessageOutcome.malformed, w) = commit_message_db m w calls
  after_handle_db m calls (ok MessageOutcome.failed, w) = commit_message_db m w calls

  received-Seen :
      (x : String) (m : Message) (s : Worker)
      → Seen x s.world.db
      → Seen x
          (on_polled env group raced deserialize committed workflow (Polled.received m) s).world.db
  unfolding on_polled handle_message
  received-Seen x m s h =
      rw
        (after_handle_db m s.calls
          (handle_message env group raced deserialize committed workflow m.value s.world))
        (handle_event-Seen x (event_of env group raced deserialize committed workflow m.value)
          s.world h)

  grown :
      (s s' : Worker) (new : List ConsumerCall)
      → s'.calls ≡ s.calls ++ new
      → ((x : String) → Seen x s.world.db → Seen x s'.world.db)
      → ((m : Message)
          → Memᴰ (ConsumerCall.commit m true) new
          → Handled env group raced deserialize committed workflow m s'.world)
      → Delivered env group raced deserialize committed workflow s
      → Delivered env group raced deserialize committed workflow s'
  grown s s' new e kept added h m k =
      elim (Memᴰ.append_cases s.calls (subst (Memᴰ (ConsumerCall.commit m true)) e k)) [
        | inl old ↦ λ event p. kept event.event_id (h m old event p)
        | inr fresh ↦ added m fresh
      ]

  received-Delivered :
      (m : Message) (s s' : Worker)
      → ((x : String) → Seen x s.world.db → Seen x s'.world.db)
      → Settled env group raced deserialize committed workflow m s s'
      → Delivered env group raced deserialize committed workflow s
      → Delivered env group raced deserialize committed workflow s'
  received-Delivered m s s' kept (Settled.done e held) h =
      grown s s' _ e kept
        (λ m' k. elim (Memᴰ.cases_cons k) [
          | inl p ↦
              subst (λ n. Handled env group raced deserialize committed workflow n s'.world)
                (same_message (sym p)) held
          | inr none_left ↦ absurd (Memᴰ.not-nil none_left)
        ])
        h
  received-Delivered m s s' kept (Settled.not_committed e held) h =
      grown s s' _ e kept
        (λ m' k. elim (Memᴰ.cases_cons k) [
          | inl p ↦
              subst (λ n. Handled env group raced deserialize committed workflow n s'.world)
                (same_message (sym p)) held
          | inr rest ↦ absurd (not_again m m' rest)
        ])
        h
  received-Delivered m s s' kept (Settled.again e why) h =
      grown s s' _ e kept (λ m' k. absurd (not_again m m' k)) h

  on_polled-Delivered :
      (polled : Polled) (s : Worker)
      → Delivered env group raced deserialize committed workflow s
      → Delivered env group raced deserialize committed workflow
          (on_polled env group raced deserialize committed workflow polled s)
  unfolding on_polled
  on_polled-Delivered Polled.nothing s h = h
  on_polled-Delivered (Polled.consumer_error true) s h = h
  on_polled-Delivered (Polled.consumer_error false) s h =
      grown s (record s { calls = s.calls ++ ConsumerCall.wait ∷ [] }) (ConsumerCall.wait ∷ []) refl
        (λ x k. k) (λ m k. absurd (not_wait m k)) h
  on_polled-Delivered (Polled.received m) s h =
      received-Delivered m s _ (λ x k. received-Seen x m s k)
        (on_polled-Settled env group raced deserialize committed workflow m s) h

  -- If a message whose offset was committed was handled when the loop starts, this is so when it
  -- ends, whatever the client polls, whichever commits fail and whatever processing raises: a
  -- committed message holds no event, or its event has a marker in the database. The workflow is
  -- to keep the markers that are there.
  pub run_worker-Delivered :
      (polls : List Polled) (s : Worker)
      → Delivered env group raced deserialize committed workflow s
      → Delivered env group raced deserialize committed workflow
          (run_worker env group raced deserialize committed workflow polls s)
  unfolding run_worker
  run_worker-Delivered [] s h =
      grown s (record s { calls = s.calls ++ ConsumerCall.close ∷ [] }) (ConsumerCall.close ∷ [])
        refl (λ x k. k) (λ m k. absurd (not_close m k)) h
  run_worker-Delivered (polled ∷ rest) s h =
      run_worker-Delivered rest (on_polled env group raced deserialize committed workflow polled s)
        (on_polled-Delivered polled s h)
