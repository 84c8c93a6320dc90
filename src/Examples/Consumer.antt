-- ===== src/Examples/Consumer.antt =====
-- Witnesses for the consumer: a message is delivered, a commit fails, and it is delivered again.
use mathlib.Core.List.Memᴰ
use ai_support_engineering_p.Agent.Env.{transaction}
use ai_support_engineering_p.Agent.Models.{IncidentCreatedEvent}
use ai_support_engineering_p.Common.{
  List, Option, [], false, ltb, none, refl, some, true, ℕ, ◌∷◌, ◌≡◌,
}
use ai_support_engineering_p.Common.Exec.{◌>>=◌}
use ai_support_engineering_p.Examples.Data.{first_world, sample_env, sample_event}
use ai_support_engineering_p.Examples.Service.{instant_workflow}
use ai_support_engineering_p.Workers.Processor.{mark, mark_session, marker, process, work}
use ai_support_engineering_p.Workers.Runner.{
  ConsumerCall, Message, Polled, Worker, handle_message, on_polled, run_worker, seek_to_message,
}
use ai_support_engineering_p.Workers.Runner.Delivery.{run_worker-Delivered}
use ai_support_engineering_p.Workers.Runner.Settled.{Delivered, Settled, on_polled-Settled}

abbrev sample_message : Message
sample_message = record {
  topic = "incident.created";
  partition = 0;
  offset = 4;
  value = some (1 ∷ []);
}

abbrev parsed : List ℕ → Option IncidentCreatedEvent
parsed value = some sample_event

abbrev first_worker : Worker
first_worker = record { world = first_world; calls = [] }

abbrev polls : List Polled
polls = Polled.received sample_message ∷ Polled.nothing ∷ Polled.received sample_message ∷ []

delivers_again :
    (run_worker sample_env "workers"
      (λ n. none)
      parsed
      (ltb 2)
      (some instant_workflow)
      polls
      first_worker).calls
    ≡ ConsumerCall.commit sample_message false
      ∷ seek_to_message sample_message
      ∷ ConsumerCall.wait
      ∷ ConsumerCall.commit sample_message true
      ∷ ConsumerCall.close
      ∷ []
unfolding run_worker on_polled handle_message process ◌>>=◌ transaction work mark mark_session
    marker
delivers_again = refl

run_worker-Delivered_example :
    Delivered sample_env "workers"
      (λ n. none)
      parsed
      (ltb 2)
      (some instant_workflow)
      (run_worker sample_env "workers"
        (λ n. none)
        parsed
        (ltb 2)
        (some instant_workflow)
        polls
        first_worker)
run_worker-Delivered_example =
    run_worker-Delivered sample_env "workers" (λ n. none) parsed (ltb 2) (some instant_workflow)
      (λ x. record { keeps = λ event. record { at = λ w h. h } }) polls first_worker
      (λ m k. absurd (Memᴰ.not-nil k))

on_polled-Settled_example :
    Settled sample_env "workers"
      (λ n. none)
      parsed
      (ltb 2)
      (some instant_workflow)
      sample_message
      first_worker
      (on_polled sample_env "workers"
        (λ n. none)
        parsed
        (ltb 2)
        (some instant_workflow)
        (Polled.received sample_message)
        first_worker)
on_polled-Settled_example =
    on_polled-Settled sample_env "workers" (λ n. none) parsed (ltb 2) (some instant_workflow)
      sample_message first_worker
