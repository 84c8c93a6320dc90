-- ===== src/Examples/Service.antt =====
-- Witnesses for the review, the processor and the outbox.
use mathlib.Core.List.Memᴰ
use ai_support_engineering_p.Agent.Claim.{Outcome, new_execution, new_resolution}
use ai_support_engineering_p.Agent.Env.{transaction}
use ai_support_engineering_p.Agent.Tables.{find_resolution}
use ai_support_engineering_p.Common.{
  [], any, ap, arith, codes, false, none, refl, some, sym, true, ℕ, ◌++◌, ◌∙◌, ◌∷◌, ◌≡◌, ◌≤◌,
}
use ai_support_engineering_p.Common.Exec.{err, ok, ◌>>=◌}
use ai_support_engineering_p.Db.{
  AgentExecutionRecord, AgentStatus, AiResolutionRecord, Db, OutboxEventRecord,
  ResolutionFeedbackRecord, ReviewOutcome,
}
use ai_support_engineering_p.Db.Json.{null}
use ai_support_engineering_p.Events.Delay.{retry_delay_lem}
use ai_support_engineering_p.Events.Delivery.{ReachedBroker}
use ai_support_engineering_p.Events.Dispatched.{Dispatched, dispatch_pending_lem}
use ai_support_engineering_p.Events.Dispatcher.{
  dispatch_batch, dispatch_event, dispatch_pending, publish_row, retry_delay, send, settle_event,
}
use ai_support_engineering_p.Events.Outbox.{
  Broker, OutboxWorld, get_for_dispatch, is_published, list_pending_ids,
}
use ai_support_engineering_p.Examples.Data.{first_world, sample_env, sample_event, sample_incident}
use ai_support_engineering_p.Review.{
  FeedbackRequest, Refusal, feedback_row, get_execution, is_decision, record_feedback,
  with_feedback,
}
use ai_support_engineering_p.Review.Transitions.{decide-once, review_status}
use ai_support_engineering_p.Workers.Delivered.{Answered, process-Marked, process-again}
use ai_support_engineering_p.Workers.Kept.{Keeps}
use ai_support_engineering_p.Workers.Markers.{Once, process-Once}
use ai_support_engineering_p.Workers.Processor.{
  Process, ProcessingOutcome, ResolutionWorkflow, mark, mark_session, marks, process, work,
}
use mathlib.Core.Bool.{true≢false}
use mathlib.Core.List.{Memᴰ}

abbrev reviewed_execution : AgentExecutionRecord
reviewed_execution = record (new_execution sample_env sample_event "x-1" 1 0) {
  status = AgentStatus.awaiting_review;
}

abbrev reviewed_resolution : AiResolutionRecord
reviewed_resolution = new_resolution sample_env sample_event 1 0

abbrev reviewed_db : Db
reviewed_db = record first_world.db {
  executions = reviewed_execution ∷ [];
  resolutions = reviewed_resolution ∷ [];
}

abbrev sample_feedback : FeedbackRequest
sample_feedback = record { rating = some 5; comment = none; reviewer = codes "ana" }

reviewed_row : get_execution 7 reviewed_db ≡ some reviewed_execution
unfolding new_execution
reviewed_row = refl

reviewed_held : find_resolution 7 reviewed_db ≡ some reviewed_resolution
unfolding new_resolution
reviewed_held = refl

abbrev approved_row : ResolutionFeedbackRecord
approved_row = feedback_row 1 9 7 sample_feedback ReviewOutcome.approved reviewed_resolution

abbrev approved_db : Db
approved_db = with_feedback 1 9 7 sample_feedback ReviewOutcome.approved approved_row reviewed_db

decide-once_example :
    (record_feedback 1 9 7 sample_feedback ReviewOutcome.approved reviewed_db
      ≡ ok (approved_row, approved_db))
    × (approved_db.feedback ≡ reviewed_db.feedback ++ approved_row ∷ [])
    × (review_status 7 approved_db ≡ some AgentStatus.approved)
    × ((later_id later : ℕ) (request : FeedbackRequest) (decision : ReviewOutcome)
        → is_decision decision ≡ true
        → record_feedback later_id later 7 request decision approved_db
          ≡ err (Refusal.not_pending AgentStatus.approved))
decide-once_example =
    decide-once 7 ReviewOutcome.approved reviewed_db sample_incident reviewed_execution
      reviewed_resolution refl reviewed_row reviewed_held 1 9 sample_feedback refl refl

-- A workflow that resolves everything at once.
abbrev pub instant_workflow : ResolutionWorkflow
instant_workflow = record { phase = 5; resolve_event = λ event w. (ok Outcome.completed, w) }

instant-Keeps : Keeps Once instant_workflow
instant-Keeps = record { keeps = λ event. record { at = λ w h. h } }

abbrev process_sample : Process ProcessingOutcome
process_sample = process sample_env "workers" (λ n. none) (some instant_workflow) sample_event

process-Once_example : Once (process_sample first_world).1.db
process-Once_example =
    process-Once sample_env "workers" (λ n. none) (some instant_workflow) sample_event first_world
      instant-Keeps (λ x. omega arith)

processes :
    process_sample first_world ≡ (ok ProcessingOutcome.processed, (process_sample first_world).1)
unfolding process ◌>>=◌ transaction work mark mark_session
processes = refl

process-Marked_example : any (marks "e-1") (process_sample first_world).1.db.processed ≡ true
process-Marked_example =
    process-Marked sample_env "workers" (λ n. none) (some instant_workflow) sample_event first_world
      (process_sample first_world).1 ProcessingOutcome.processed processes

process-again_example :
    Answered sample_env "workers" (λ n. none) sample_event 3 (process_sample first_world).1
process-again_example =
    process-again sample_env "workers" (λ n. none) (λ n. refl) (some instant_workflow) sample_event
      first_world (process_sample first_world).1 ProcessingOutcome.processed processes 3

abbrev pub sample_broker : Broker
sample_broker = record {
  current = λ n. n;
  second = 1000;
  outbox_fault = λ n. none;
  is_locked = λ n x. false;
  publish = λ n payload topic. none;
  arrived_anyway = λ n. false;
  id_before = λ x y. false;
}

abbrev waiting_event : OutboxEventRecord
waiting_event = record {
  event_id = "e-1";
  incident_id = 7;
  event_type = "incident.created";
  topic = "incident.created";
  payload = null;
  attempts = 0;
  next_attempt_at = 0;
  last_error = none;
  published_at = none;
  created_at = 0;
}

abbrev pub outbox_world : OutboxWorld
outbox_world = record {
  db = record first_world.db { outbox = waiting_event ∷ [] };
  sent = [];
  tick = 1;
}

pub none_published : ReachedBroker outbox_world.db outbox_world.sent
none_published r (Memᴰ.head e) p = absurd (true≢false (sym p ∙ ap is_published e))
none_published r (Memᴰ.tail m) p = absurd (Memᴰ.not-nil m)

dispatch_pending_lem_example :
    Dispatched outbox_world (dispatch_pending sample_broker 10 outbox_world)
dispatch_pending_lem_example = dispatch_pending_lem sample_broker 10 outbox_world none_published

retry_delay_lem_example :
    (1 ≤ retry_delay 2) × (retry_delay 2 ≤ retry_delay 9) × (retry_delay 9 ≤ 60)
retry_delay_lem_example = retry_delay_lem 2 9 (omega arith)

sends_one : (dispatch_pending sample_broker 10 outbox_world).0 ≡ ok 1
unfolding dispatch_pending list_pending_ids dispatch_batch dispatch_event get_for_dispatch send
    settle_event publish_row ◌>>=◌
sends_one = refl
