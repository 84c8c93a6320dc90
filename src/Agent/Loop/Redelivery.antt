-- ===== src/Agent/Loop/Redelivery.antt =====
-- What `_resolve` does with an event that is delivered again after its execution was given up.
use ai_support_engineering_p.Agent.Claim.{
  Outcome, claim, claim_execution, claim_session, terminal_outcome,
}
use ai_support_engineering_p.Agent.Env.{Env, World, ask, transaction}
use ai_support_engineering_p.Agent.Failing.{
  exhaust, exhaust_session, fail_execution, fail_resolution, fail_session, is_terminal,
  record_failure, record_terminal_failure,
}
use ai_support_engineering_p.Agent.Failure.{Budget, Complaint, Failure, ToolFault}
use ai_support_engineering_p.Agent.Loop.{Handler, handled, handler_of, resolve, settle}
use ai_support_engineering_p.Agent.Models.{AgentLimits, IncidentCreatedEvent}
use ai_support_engineering_p.Agent.Tables.{
  by_execution, by_id, by_incident, find_execution, set_execution, set_resolution,
}
use ai_support_engineering_p.Common.{
  Bool, Bool-cases, List, String, [], ap, arith, false, find, find-modify, find_holds, inl, inr,
  modify, none, refl, some, some_same, suc, true, zero, ℕ, ◌+◌, ◌∷◌, ◌≡◌, ◌≤◌,
}
use ai_support_engineering_p.Common.Exec.{err, ok, pure, ◌>>=◌}
use ai_support_engineering_p.Db.{AgentExecutionRecord, AgentStatus, IncidentRecord}
use ai_support_engineering_p.Workers.Processor.{found}

module _ {A : Type 0} where
  -- A write by one key of the row that another key finds too.
  find-modify_same :
      (p q : A → Bool) (f : A → A) (xs : List A) (r : A)
      → ((x : A) → p (f x) ≡ p x)
      → p r ≡ true
      → q r ≡ true
      → find p xs ≡ some r
      → find q xs ≡ some r
      → find p (modify q f xs) ≡ some (f r)
  find-modify_same p q f [] r h a b m n = cc
  find-modify_same p q f (x ∷ xs) r h a b m n = elim (Bool-cases (p x)) [
    | inl s ↦ elim (Bool-cases (q x)) [
      | inl t ↦ rw (t, h x, s) (ap (λ y. some (f y)) (some_same (rw s at m)))
      | inr t ↦ let e = some_same (rw s at m) in cc
    ]
    | inr s ↦ elim (Bool-cases (q x)) [
      | inl t ↦ let e = some_same (rw t at n) in cc
      | inr t ↦ rw (t, s) (find-modify_same p q f xs r h a b (rw s at m) (rw t at n))
    ]
  ]

-- The failures that end an execution whose retry count is the given one: a budget that is used up,
-- and from the attempt numbered `model_retries` on also invalid output of the model or a tool.
pub data GivesUp (limits : AgentLimits) (retries : ℕ) : Failure → Type 0 where
  budget : {b : Budget} → GivesUp limits retries (Failure.budget_exceeded b)
  complaint :
      {c : Complaint}
      → limits.model_retries ≤ retries + 1
      → GivesUp limits retries (Failure.agent_validation c)
  unknown :
      {name : String}
      → limits.model_retries ≤ retries + 1
      → GivesUp limits retries (Failure.unknown_tool name)
  unauthorized :
      limits.model_retries ≤ retries + 1 → GivesUp limits retries Failure.unauthorized_arguments
  tool :
      {f : ToolFault}
      → limits.model_retries ≤ retries + 1
      → GivesUp limits retries (Failure.tool_execution f)

module _ (env : Env) (limits : AgentLimits) (event : IncidentCreatedEvent) where
  -- The next deliveries are answered with FAILED, and write nothing.
  pub data Refused : ℕ → World → Type 0 where
    stop : {w : World} → Refused zero w
    again :
        {n : ℕ} {w w' : World}
        → resolve env limits event w ≡ some (ok Outcome.failed, w')
        → w'.db ≡ w.db
        → Refused n w'
        → Refused (suc n) w

  module _ (no_fault : (n : ℕ) → env.db_fault n ≡ none) where
    refused :
        (n : ℕ) (w : World) (i : IncidentRecord) (r : AgentExecutionRecord)
        → find (by_id event.incident_id) w.db.incidents ≡ some i
        → find (by_incident event.incident_id) w.db.executions ≡ some r
        → r.status ≡ AgentStatus.failed
        → Refused n w
    unfolding resolve claim ◌>>=◌ ask transaction claim_session claim_execution terminal_outcome
    refused zero w i r stored found h = Refused.stop
    refused (suc n) w i r stored found h =
        Refused.again {w' = record { db = w.db; tick = w.tick + 1 + 1 + 1 + 1 + 1 }}
          (rw
            (
              no_fault (w.tick + 1 + 1 + 1),
              stored,
              claim_session,
              found,
              claim_execution,
              h,
              terminal_outcome,
            )
            refl)
          refl
          (refused n (record { db = w.db; tick = w.tick + 1 + 1 + 1 + 1 + 1 }) i r stored found h)

    module _ (x : String) (e : Failure) where
      -- The world that `_record_failure` leaves behind for a terminal failure.
      abbrev failed_world : AgentExecutionRecord → World → World
      failed_world r w = record {
        db =
            set_resolution r.incident_id (fail_resolution env limits e true (env.now w.tick))
              (set_execution x (fail_execution env limits e true (env.now w.tick)) w.db);
        tick = w.tick + 1 + 1;
      }

      record_failure_world :
          (w : World) (r : AgentExecutionRecord)
          → find_execution x w.db ≡ some r
          → is_terminal env limits false r ≡ true
          → record_failure env limits x e false w ≡ (ok true, failed_world r w)
      unfolding record_failure ◌>>=◌ ask transaction fail_session
      record_failure_world w r found last = rw (no_fault (w.tick + 1), found, last) refl

      failed-Refused :
          (n : ℕ) (w : World) (i : IncidentRecord) (r : AgentExecutionRecord)
          → find (by_id event.incident_id) w.db.incidents ≡ some i
          → find_execution x w.db ≡ some r
          → find (by_incident event.incident_id) w.db.executions ≡ some r
          → Refused n (failed_world r w)
      unfolding fail_execution
      failed-Refused n w i r stored found owned =
          refused n (failed_world r w) i (fail_execution env limits e true (env.now w.tick) r)
            stored
            (find-modify_same (by_incident event.incident_id) (by_execution x)
              (fail_execution env limits e true (env.now w.tick)) w.db.executions r (λ a. refl)
              (find_holds (by_incident event.incident_id) w.db.executions owned)
              (find_holds (by_execution x) w.db.executions found) owned found)
            refl

      last_attempt :
          (r : AgentExecutionRecord)
          → limits.model_retries ≤ r.retry_count + 1
          → is_terminal env limits false r ≡ true
      unfolding is_terminal
      last_attempt r k = ground arith

      worn : (r : AgentExecutionRecord) → is_terminal env limits false (exhaust env limits r) ≡ true
      unfolding is_terminal
      worn r = ground arith

      -- What is promised of an execution that is given up.
      abbrev pub Final : ℕ → World → Type 0
      Final n w =
          let o = settle env limits event x (err e) w in (o.0 ≡ ok Outcome.failed) × Refused n o.1

      module _ (w : World) (i : IncidentRecord) (r : AgentExecutionRecord)
          (stored : find (by_id event.incident_id) w.db.incidents ≡ some i)
          (found : find_execution x w.db ≡ some r)
          (owned : find (by_incident event.incident_id) w.db.executions ≡ some r) where
        -- The world after the first session of `_record_terminal_failure`.
        abbrev worn_out : World
        worn_out = record { db = set_execution x (exhaust env limits) w.db; tick = w.tick + 1 }

        found_again : find_execution x worn_out.db ≡ some (exhaust env limits r)
        found_again =
            rw
              (find-modify (by_execution x) (exhaust env limits) w.db.executions (λ a. refl), found)
              refl

        owned_again :
            find (by_incident event.incident_id) worn_out.db.executions
            ≡ some (exhaust env limits r)
        owned_again =
            find-modify_same (by_incident event.incident_id) (by_execution x) (exhaust env limits)
              w.db.executions r (λ a. refl)
              (find_holds (by_incident event.incident_id) w.db.executions owned)
              (find_holds (by_execution x) w.db.executions found) owned found

        invalid-Final :
            handler_of e ≡ Handler.invalid
            → limits.model_retries ≤ r.retry_count + 1
            → (n : ℕ) → Final n w
        unfolding settle handled ◌>>=◌ pure
        invalid-Final h k n =
            let last : is_terminal env limits false r ≡ true = last_attempt r k in
            rw (h, settle, handled, record_failure_world w r found last)
              (refl, failed-Refused n w i r stored found owned)

        exhausted-Final : handler_of e ≡ Handler.exhausted → (n : ℕ) → Final n w
        unfolding settle handled ◌>>=◌ pure record_terminal_failure exhaust_session transaction
        exhausted-Final h n =
            rw
              (
                h,
                settle,
                handled,
                no_fault w.tick,
                found,
                exhaust_session,
                record_failure_world worn_out (exhaust env limits r) found_again (worn r),
              )
              (
                refl,
                failed-Refused n worn_out i (exhaust env limits r) stored found_again owned_again,
              )

    -- An execution that is given up stays so: if a budget is used up, or if a model's or a tool's
    -- output is invalid from the attempt numbered `model_retries` on, then `_resolve` returns
    -- FAILED, and it answers any number of further deliveries of the event with FAILED too, without
    -- writing anything, if the incident is stored, the execution is the incident's and the database
    -- answers.
    pub settle-Final :
        (x : String) (e : Failure) (w : World) (i : IncidentRecord) (r : AgentExecutionRecord)
        → find (by_id event.incident_id) w.db.incidents ≡ some i
        → find_execution x w.db ≡ some r
        → find (by_incident event.incident_id) w.db.executions ≡ some r
        → GivesUp limits r.retry_count e
        → (n : ℕ) → Final x e n w
    unfolding handler_of
    settle-Final x e w i r stored found owned GivesUp.budget n =
        exhausted-Final x _ w i r stored found owned refl n
    settle-Final x e w i r stored found owned (GivesUp.complaint k) n =
        invalid-Final x _ w i r stored found owned refl k n
    settle-Final x e w i r stored found owned (GivesUp.unknown k) n =
        invalid-Final x _ w i r stored found owned refl k n
    settle-Final x e w i r stored found owned (GivesUp.unauthorized k) n =
        invalid-Final x _ w i r stored found owned refl k n
    settle-Final x e w i r stored found owned (GivesUp.tool k) n =
        invalid-Final x _ w i r stored found owned refl k n
