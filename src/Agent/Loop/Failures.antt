-- ===== src/Agent/Loop/Failures.antt =====
-- What `_resolve` stores and returns for the exceptions that leave its loop.
use mathlib.Core.Option
use ai_support_engineering_p.Agent.Claim.{Outcome}
use ai_support_engineering_p.Agent.Env.{Env, M, World, ask, transaction}
use ai_support_engineering_p.Agent.Failing.{
  exhaust, exhaust_session, fail_execution, fail_resolution, fail_session, is_terminal,
  record_failure, record_terminal_failure,
}
use ai_support_engineering_p.Agent.Failure.{Failure, class_name, safe_error}
use ai_support_engineering_p.Agent.Loop.{Handler, deferral, handled, handler_of, settle}
use ai_support_engineering_p.Agent.Models.{AgentLimits, IncidentCreatedEvent}
use ai_support_engineering_p.Agent.Tables.{
  by_execution, find_execution, find_resolution, of_incident, set_execution, set_resolution,
}
use ai_support_engineering_p.Common.{
  Bool, Option, String, Text, arith, false, find, find-modify, if◌then◌else◌, leb, modify, none,
  refl, some, true, ℕ, ◌+◌, ◌≡◌,
}
use ai_support_engineering_p.Common.Exec.{err, ok, pure, raise, ◌>>=◌}
use ai_support_engineering_p.Db.{
  AgentExecutionRecord, AgentStatus, AiResolutionRecord, AiResolutionStatus, Db,
}
use ai_support_engineering_p.Workers.Processor.{found}

-- The exceptions of which `_resolve` says that a dependency did not answer: the model's provider, a
-- tool, the database.
pub data NotAnswered : Failure → Type 0 where
  by_provider : {t : Text} → NotAnswered (Failure.provider_unavailable t)
  by_tool : {name : String} → NotAnswered (Failure.tool_timeout name)
  by_database : {t : Text} → NotAnswered (Failure.sqlalchemy t)

handler_of-NotAnswered : (e : Failure) → NotAnswered e → handler_of e ≡ Handler.transient
unfolding handler_of
handler_of-NotAnswered e NotAnswered.by_provider = refl
handler_of-NotAnswered e NotAnswered.by_tool = refl
handler_of-NotAnswered e NotAnswered.by_database = refl

module _ (env : Env) (limits : AgentLimits) (event : IncidentCreatedEvent) (x : String)
    (e : Failure) where
  abbrev pub status_of : Db → Option AgentStatus
  status_of db = Option.map (λ r. r.status) (find_execution x db)

  abbrev pub resolution_status : ℕ → Db → Option AiResolutionStatus
  resolution_status i db = Option.map (λ r. r.status) (find_resolution i db)

  abbrev pub outcome_status : Bool → AgentStatus
  outcome_status terminal = if terminal then AgentStatus.failed else AgentStatus.retryable

  -- The rows after a failure that is stored.
  pub record Recorded (terminal : Bool) (incident : ℕ) (db : Db) : Type 0 where
    pub execution : status_of db ≡ some (outcome_status terminal)
    pub resolution :
        resolution_status incident db
        ≡ some (if terminal then AiResolutionStatus.failed else AiResolutionStatus.retryable)
    pub error_type :
        Option.map (λ r. r.error_type) (find_execution x db) ≡ some (some (class_name e))
    pub message :
        Option.map (λ r. r.error_message_safe) (find_execution x db)
        ≡ some (some (safe_error (env.str e)))

  failed_rows :
      (terminal : Bool) (now : ℕ) (r : AgentExecutionRecord) (q : AiResolutionRecord) (db : Db)
      → find_execution x db ≡ some r
      → find_resolution r.incident_id db ≡ some q
      → Recorded terminal r.incident_id (
          set_resolution r.incident_id
            (fail_resolution env limits e terminal now)
            (set_execution x (fail_execution env limits e terminal now) db))
  unfolding fail_resolution fail_execution
  failed_rows terminal now r q db found held = record {
    execution = rw (rewritten now, found) refl;
    resolution =
        rw
          (
            find-modify (of_incident r.incident_id) (fail_resolution env limits e terminal now)
                db.resolutions (λ a. refl),
            held,
          )
          refl;
    error_type = rw (rewritten now, found) refl;
    message = rw (rewritten now, found) refl;
  }
    where
      rewritten :
          (now : ℕ)
          → find
              (by_execution x)
              (modify (by_execution x) (fail_execution env limits e terminal now) db.executions)
            ≡ Option.map (fail_execution env limits e terminal now) (find_execution x db)
      rewritten now =
          find-modify (by_execution x) (fail_execution env limits e terminal now) db.executions
            (λ a. refl)

  -- The end of the clause for invalid output.
  concluded :
      (terminal : Bool) (incident : ℕ) (w : World)
      → Recorded terminal incident w.db
      → let end : M Outcome =
          if terminal then pure Outcome.failed else raise (deferral env limits event e) in
        ((end w).0 ≡ (if terminal then ok Outcome.failed else err (deferral env limits event e)))
        × Recorded terminal incident (end w).1.db
  unfolding pure raise
  concluded true incident w h = (refl, h)
  concluded false incident w h = (refl, h)

  module _ (no_fault : (n : ℕ) → env.db_fault n ≡ none) where
    record_failure_lem :
        (retryable : Bool) (w : World) (r : AgentExecutionRecord) (q : AiResolutionRecord)
        → find_execution x w.db ≡ some r
        → find_resolution r.incident_id w.db ≡ some q
        → ((record_failure env limits x e retryable w).0 ≡ ok (is_terminal env limits retryable r))
          × Recorded
              (is_terminal env limits retryable r)
              r.incident_id
              (record_failure env limits x e retryable w).1.db
    unfolding record_failure ◌>>=◌ ask transaction fail_session
    record_failure_lem retryable w r q found held =
        rw (no_fault (w.tick + 1), found) (refl, failed_rows _ _ r q w.db found held)

    module _ (w : World) (r : AgentExecutionRecord) (q : AiResolutionRecord)
        (found : find_execution x w.db ≡ some r)
        (held : find_resolution r.incident_id w.db ≡ some q) where
      -- A `ProviderUnavailableError`, a `ToolTimeoutError` or an `SQLAlchemyError` that leaves the
      -- loop is stored as retryable in both rows, with its class and its text, however often the
      -- execution was retried, and `_resolve` raises `RetryableResolutionError`, if the database
      -- stores what it is given.
      pub settle-transient :
          NotAnswered e
          → ((settle env limits event x (err e) w).0 ≡ err (deferral env limits event e))
            × Recorded false r.incident_id (settle env limits event x (err e) w).1.db
      unfolding settle handled ◌>>=◌ is_terminal
      settle-transient h =
          let c = record_failure_lem true w r q found held in
          rw (handler_of-NotAnswered e h, settle, handled, c.0) (refl, c.1)

      -- Invalid output of the model or a tool is terminal exactly from the attempt numbered
      -- `model_retries` on: then both rows are FAILED and `_resolve` returns FAILED, and before
      -- both are retryable and it raises `RetryableResolutionError`, if the database stores what
      -- it is given.
      pub settle-invalid :
          handler_of e ≡ Handler.invalid
          → let terminal = leb limits.model_retries (r.retry_count + 1) in
            ((settle env limits event x (err e) w).0
              ≡ (if terminal then ok Outcome.failed else err (deferral env limits event e)))
            × Recorded terminal r.incident_id (settle env limits event x (err e) w).1.db
      unfolding settle handled ◌>>=◌ is_terminal
      settle-invalid h =
          let c = record_failure_lem false w r q found held in
          rw (h, settle, handled, c.0) (concluded _ r.incident_id _ c.1)

      exhausted_row : is_terminal env limits false (exhaust env limits r) ≡ true
      unfolding is_terminal
      exhausted_row = ground arith

      -- The world after the first session of `_record_terminal_failure`.
      abbrev worn_out : World
      worn_out = record { db = set_execution x (exhaust env limits) w.db; tick = w.tick + 1 }

      worn_out_row : find_execution x worn_out.db ≡ some (exhaust env limits r)
      worn_out_row =
          rw (find-modify (by_execution x) (exhaust env limits) w.db.executions (λ a. refl), found)
            refl

      -- A budget that is used up ends the execution for good, however often it was retried: both
      -- rows are FAILED and `_resolve` returns FAILED, if the database stores what it is given.
      pub settle-exhausted :
          handler_of e ≡ Handler.exhausted
          → ((settle env limits event x (err e) w).0 ≡ ok Outcome.failed)
            × Recorded true r.incident_id (settle env limits event x (err e) w).1.db
      unfolding settle handled ◌>>=◌ is_terminal record_terminal_failure exhaust_session transaction
      settle-exhausted h =
          let c = record_failure_lem false worn_out (exhaust env limits r) q worn_out_row held in
          rw (h, settle, handled, no_fault w.tick, found, exhaust_session, c.0)
            (refl, rw exhausted_row at c.1)
