-- ===== src/Workers/Runner/Settled.antt =====
-- What the worker does with the offset of a message.
use ai_support_engineering_p.Agent.Env.{Env, World}
use ai_support_engineering_p.Agent.Models.{IncidentCreatedEvent}
use ai_support_engineering_p.Common.{
  Bool, Bool-cases, List, Option, String, [], any, false, inl, inr, none, refl, some, some_same,
  subst, sym, true, ℕ, ◌++◌, ◌∷◌, ◌≡◌, ◌≢◌,
}
use ai_support_engineering_p.Common.Exec.{Result, err, ok, ok_same, pure}
use ai_support_engineering_p.Db.Json.{Value}
use ai_support_engineering_p.Workers.Delivered.{process-Marked}
use ai_support_engineering_p.Workers.Processor.{
  ProcessError, ProcessingOutcome, ResolutionWorkflow, marks, process,
}
use ai_support_engineering_p.Workers.Runner.{
  ConsumerCall, Message, MessageOutcome, Polled, Worker, after_handle, classified, commit_message,
  event_of, handle_event, handle_message, on_polled, seek_to_message,
}
use mathlib.Core.List.{Memᴰ}

module _ (env : Env) (group : String) (raced : ℕ → Option Value)
    (deserialize : List ℕ → Option IncidentCreatedEvent) (committed : ℕ → Bool)
    (workflow : Option ResolutionWorkflow) where
  -- If the message holds an event, the event has a marker.
  abbrev pub Handled : Message → World → Type 0
  Handled m w =
      (event : IncidentCreatedEvent)
      → event_of env group raced deserialize committed workflow m.value ≡ some event
      → any (marks event.event_id) w.db.processed ≡ true

  -- Every message whose offset was committed was handled.
  abbrev pub Delivered : Worker → Type 0
  Delivered s = (m : Message) → Memᴰ (ConsumerCall.commit m true) s.calls → Handled m s.world

  -- The message holds an event, and processing it in this world raised.
  abbrev pub Raised : Message → World → Type 0
  Raised m w =
      (event : IncidentCreatedEvent) × (e : ProcessError) × (event_of env group raced deserialize
          committed workflow m.value
        ≡ some event)
      × ((process env group raced workflow event w).0 ≡ err e)

  -- What the worker does with a message: it commits the offset, or seeks back to the message.
  pub data Settled (m : Message) (s s' : Worker) : Type 0 where
    done :
        s'.calls ≡ s.calls ++ ConsumerCall.commit m true ∷ [] → Handled m s'.world → Settled m s s'
    not_committed :
        s'.calls
          ≡ s.calls ++ ConsumerCall.commit m false ∷ seek_to_message m ∷ ConsumerCall.wait ∷ []
        → Handled m s'.world
        → Settled m s s'
    again :
        s'.calls ≡ s.calls ++ seek_to_message m ∷ ConsumerCall.wait ∷ []
        → Raised m s.world
        → Settled m s s'

  commit_message-Settled :
      (m : Message) (s : Worker) (w : World)
      → Handled m w
      → Settled m s (commit_message env group raced deserialize committed workflow m w s.calls)
  commit_message-Settled m s w h = elim (Bool-cases (committed w.tick)) [
    | inl e ↦ rw e (done refl h)
    | inr e ↦ rw e (not_committed refl h)
  ]

  after_handle-Settled :
      (m : Message) (s : Worker) (o : Result ProcessError MessageOutcome × World)
      → ((outcome : MessageOutcome)
          → o.0 ≡ ok outcome
          → outcome ≢ MessageOutcome.retry
          → Handled m o.1)
      → (o.0 ≡ ok MessageOutcome.retry → Raised m s.world)
      → ((e : ProcessError) → o.0 ≡ err e → Raised m s.world)
      → Settled m s (after_handle env group raced deserialize committed workflow m s.calls o)
  after_handle-Settled m s (err e, w) h late failed = again refl (failed e refl)
  after_handle-Settled m s (ok MessageOutcome.retry, w) h late failed = again refl (late refl)
  after_handle-Settled m s (ok MessageOutcome.processed, w) h late failed =
      commit_message-Settled m s w (h MessageOutcome.processed refl (λ e. cc))
  after_handle-Settled m s (ok MessageOutcome.duplicate, w) h late failed =
      commit_message-Settled m s w (h MessageOutcome.duplicate refl (λ e. cc))
  after_handle-Settled m s (ok MessageOutcome.malformed, w) h late failed =
      commit_message-Settled m s w (h MessageOutcome.malformed refl (λ e. cc))
  after_handle-Settled m s (ok MessageOutcome.failed, w) h late failed =
      commit_message-Settled m s w (h MessageOutcome.failed refl (λ e. cc))

  classified-ok :
      (o : Result ProcessError ProcessingOutcome × World) (outcome : MessageOutcome)
      → (classified o).0 ≡ ok outcome
      → outcome ≢ MessageOutcome.retry
      → (reached : ProcessingOutcome) × (o ≡ (ok reached, (classified o).1))
  classified-ok (ok reached, w) outcome h n = (reached, refl)
  classified-ok (err (ProcessError.not_visible i), w) outcome h n =
      absurd (n (sym (ok_same refl h)))
  classified-ok (err (ProcessError.deferred_processing t), w) outcome h n =
      absurd (n (sym (ok_same refl h)))
  classified-ok (err (ProcessError.raised e), w) outcome h n = cc

  handle_event-Handled :
      (event : Option IncidentCreatedEvent) (w : World) (outcome : MessageOutcome)
      → (handle_event env group raced deserialize committed workflow event w).0 ≡ ok outcome
      → outcome ≢ MessageOutcome.retry
      → (e : IncidentCreatedEvent) → event ≡ some e
      → any
          (marks e.event_id)
          (handle_event env group raced deserialize committed workflow event w).1.db.processed
        ≡ true
  handle_event-Handled none w outcome h n e p = cc
  handle_event-Handled (some event) w outcome h n e p =
      let (reached, q) = classified-ok (process env group raced workflow event w) outcome h n in
      subst
        (λ x.
          any (marks x.event_id)
            (classified (process env group raced workflow event w)).1.db.processed
          ≡ true)
        (some_same p) (process-Marked env group raced workflow event w _ reached q)

  classified-retry :
      (o : Result ProcessError ProcessingOutcome × World)
      → (classified o).0 ≡ ok MessageOutcome.retry
      → (e : ProcessError) × (o.0 ≡ err e)
  classified-retry (ok ProcessingOutcome.duplicate, w) h = cc
  classified-retry (ok ProcessingOutcome.failed, w) h = cc
  classified-retry (ok ProcessingOutcome.processed, w) h = cc
  classified-retry (err e, w) h = (e, refl)

  classified-err :
      (o : Result ProcessError ProcessingOutcome × World) (e : ProcessError)
      → (classified o).0 ≡ err e
      → (d : ProcessError) × (o.0 ≡ err d)
  classified-err (ok outcome, w) e h = cc
  classified-err (err d, w) e h = (d, refl)

  handle_event-retry :
      (event : Option IncidentCreatedEvent) (w : World)
      → (handle_event env group raced deserialize committed workflow event w).0
        ≡ ok MessageOutcome.retry
      → (x : IncidentCreatedEvent) × (e : ProcessError) × (event ≡ some x)
        × ((process env group raced workflow x w).0 ≡ err e)
  unfolding pure
  handle_event-retry none w h = cc
  handle_event-retry (some event) w h =
      let (e, q) = classified-retry (process env group raced workflow event w) h in
      (event, e, refl, q)

  handle_event-err :
      (event : Option IncidentCreatedEvent) (w : World) (d : ProcessError)
      → (handle_event env group raced deserialize committed workflow event w).0 ≡ err d
      → (x : IncidentCreatedEvent) × (e : ProcessError) × (event ≡ some x)
        × ((process env group raced workflow x w).0 ≡ err e)
  unfolding pure
  handle_event-err none w d h = cc
  handle_event-err (some event) w d h =
      let (e, q) = classified-err (process env group raced workflow event w) d h in
      (event, e, refl, q)

  -- For every message, one of three: the offset is committed, and the event of the message, if it
  -- holds one, has a marker then; or the commit fails after that, and the worker seeks back to the
  -- message; or nothing is committed, and it seeks back, and this only where the message holds an
  -- event whose processing raised.
  pub on_polled-Settled :
      (m : Message) (s : Worker)
      → Settled m s (on_polled env group raced deserialize committed workflow (Polled.received m) s)
  unfolding on_polled handle_message
  on_polled-Settled m s =
      after_handle-Settled m s _ (λ outcome h n. handle_event-Handled _ s.world outcome h n)
        (λ h. handle_event-retry _ s.world h) (λ e h. handle_event-err _ s.world e h)
