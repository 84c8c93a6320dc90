-- ===== src/Workers/Runner.antt =====
-- The consumer loop of workers/runner.py: `IncidentMessageHandler.handle` and the loop of
-- `KafkaIncidentWorker.run`. The Kafka client is not part of the code, so its answers are arguments
-- and the calls of it are recorded in their order. Another exception of `commit` than a
-- `KafkaException` ends the worker and is left out.
pub mod Settled
pub mod Delivery
use ai_support_engineering_p.Agent.Env.{Env, World}
use ai_support_engineering_p.Agent.Models.{IncidentCreatedEvent}
use ai_support_engineering_p.Common.{
  Bool, List, Option, String, [], false, if◌then◌else◌, none, some, true, ℕ, ◌++◌, ◌+◌, ◌∷◌,
}
use ai_support_engineering_p.Common.Exec.{Result, err, ok, pure}
use ai_support_engineering_p.Db.Json.{Value}
use ai_support_engineering_p.Workers.Processor.{
  Process, ProcessError, ProcessingOutcome, ResolutionWorkflow, deferred_processing, not_visible,
  process, raised,
}

pub data MessageOutcome : Type 0 where
  processed duplicate malformed retry failed : MessageOutcome

pub record Message : Type 0 where
  pub topic : String
  pub partition : ℕ
  pub offset : ℕ
  pub value : Option (List ℕ)

-- What `consumer.poll` answers: nothing in time, an error, which may be the end of a partition, or
-- a message.
pub data Polled : Type 0 where
  nothing : Polled
  consumer_error : Bool → Polled
  received : Message → Polled

-- The calls that matter for delivery; a commit with its success.
pub data ConsumerCall : Type 0 where
  commit : Message → Bool → ConsumerCall
  seek : String → ℕ → ℕ → ConsumerCall
  wait close : ConsumerCall

pub record Worker : Type 0 where
  pub world : World
  pub calls : List ConsumerCall

abbrev pub message_outcome : ProcessingOutcome → MessageOutcome
message_outcome ProcessingOutcome.duplicate = MessageOutcome.duplicate
message_outcome ProcessingOutcome.failed = MessageOutcome.failed
message_outcome ProcessingOutcome.processed = MessageOutcome.processed

-- `except RetryableProcessingError`; any other exception goes through.
abbrev pub classified :
    Result ProcessError ProcessingOutcome × World → Result ProcessError MessageOutcome × World
classified (ok outcome, w) = (ok (message_outcome outcome), w)
classified (err (ProcessError.not_visible incident), w) = (ok MessageOutcome.retry, w)
classified (err (ProcessError.deferred_processing detail), w) = (ok MessageOutcome.retry, w)
classified (err (ProcessError.raised e), w) = (err (raised e), w)

abbrev pub seek_to_message : Message → ConsumerCall
seek_to_message m = ConsumerCall.seek m.topic m.partition m.offset

abbrev pub and_calls : Worker → List ConsumerCall → Worker
and_calls s calls = record s { calls = s.calls ++ calls }

-- `deserialize` is `IncidentCreatedEvent.deserialize`, with none where it raises, and `committed n`
-- tells whether a commit at tick `n` succeeds.
module _ (env : Env) (group : String) (raced : ℕ → Option Value)
    (deserialize : List ℕ → Option IncidentCreatedEvent) (committed : ℕ → Bool)
    (workflow : Option ResolutionWorkflow) where
  abbrev pub handle_event : Option IncidentCreatedEvent → Process MessageOutcome
  handle_event none = pure MessageOutcome.malformed
  handle_event (some event) = λ w. classified (process env group raced workflow event w)

  abbrev pub event_of : Option (List ℕ) → Option IncidentCreatedEvent
  event_of none = none
  event_of (some value) = deserialize value

  unfoldable pub handle_message : Option (List ℕ) → Process MessageOutcome
  handle_message value = handle_event (event_of value)

  abbrev pub commit_message : Message → World → List ConsumerCall → Worker
  commit_message m w calls =
      let after = record w { tick = w.tick + 1 } in
      if committed w.tick
      then record { world = after; calls = calls ++ ConsumerCall.commit m true ∷ [] }
      else record {
        world = after;
        calls = calls ++ ConsumerCall.commit m false ∷ seek_to_message m ∷ ConsumerCall.wait ∷ [];
      }

  abbrev pub redeliver : Message → World → List ConsumerCall → Worker
  redeliver m w calls = record {
    world = w;
    calls = calls ++ seek_to_message m ∷ ConsumerCall.wait ∷ [];
  }

  abbrev pub after_handle :
      Message → List ConsumerCall → Result ProcessError MessageOutcome × World → Worker
  after_handle m calls (err e, w) = redeliver m w calls
  after_handle m calls (ok MessageOutcome.retry, w) = redeliver m w calls
  after_handle m calls (ok MessageOutcome.processed, w) = commit_message m w calls
  after_handle m calls (ok MessageOutcome.duplicate, w) = commit_message m w calls
  after_handle m calls (ok MessageOutcome.malformed, w) = commit_message m w calls
  after_handle m calls (ok MessageOutcome.failed, w) = commit_message m w calls

  unfoldable pub on_polled : Polled → Worker → Worker
  on_polled Polled.nothing s = s
  on_polled (Polled.consumer_error end_of_partition) s =
      if end_of_partition then s else and_calls s (ConsumerCall.wait ∷ [])
  on_polled (Polled.received m) s = after_handle m s.calls (handle_message m.value s.world)

  -- The loop over the answers of `poll` until `stop` is set, and the consumer closed at its end.
  unfoldable pub run_worker : List Polled → Worker → Worker
  run_worker [] s = and_calls s (ConsumerCall.close ∷ [])
  run_worker (polled ∷ rest) s = run_worker rest (on_polled polled s)
