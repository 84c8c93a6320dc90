-- ===== src/Agent/Audit/Entry.antt =====
-- What stands round the loop keeps the audit trails: the claim of an execution and the failures that are recorded.
use ai_support_engineering_p.Agent.Audit.{
  Audited, Trail, counters, counters_of, set_execution-Audited, steps_of,
}
use ai_support_engineering_p.Agent.Claim.{
  claim, claim_execution, claim_resolution, claim_session, clashes, new_execution, resume_execution,
  terminal_outcome,
}
use ai_support_engineering_p.Agent.Env.{Env, M, ask, transaction}
use ai_support_engineering_p.Agent.Env.Rules.{Committed, Db-Triple, Triple-ask, Triple-transaction}
use ai_support_engineering_p.Agent.Failing.{
  exhaust_session, fail_execution, fail_session, record_failure, record_terminal_failure,
}
use ai_support_engineering_p.Agent.Failure.{Failure}
use ai_support_engineering_p.Agent.Models.{AgentLimits, IncidentCreatedEvent}
use ai_support_engineering_p.Agent.Tables.{
  by_execution, by_id, by_incident, find_execution, find_resolution,
}
use ai_support_engineering_p.Common.{
  Bool, Bool-cases, List, Option, Option-cases, String, [], any, any_mono, arith, false, find,
  find-modify_view, find-snoc, find-snoc_other, find-none, inl, inr, modify, none, refl, some,
  subst, ℕ, ◌++◌, ◌∷◌, ◌≡◌,
}
use ai_support_engineering_p.Common.Exec.{Result, ◌>>=◌}
use ai_support_engineering_p.Common.Exec.Triple.{Triple-bind, Triple-if, Triple-pure}
use ai_support_engineering_p.Db.{AgentExecutionRecord, AgentStepRecord, Db}
use text.Mathlib.Text.{◌==◌ as str_eq}
use text.Mathlib.TextEquality.{eq_iff}
use text.Mathlib.TextPositions.{eq_refl}

module _ (env : Env) (limits : AgentLimits) (event : IncidentCreatedEvent) where
  abbrev pub Keeping : {A : Type 0} → M A → Type 0
  Keeping m = Db-Triple (Audited limits) m (λ a. Audited limits) (Audited limits)

  pub Keeping-bind :
      {A B : Type 0} {m : M A} {f : A → M B}
      → Keeping m
      → ((a : A) → Keeping (f a))
      → Keeping (m >>= f)
  Keeping-bind = Triple-bind (λ a w. Audited limits w.db)

  pub Keeping-ask : {A : Type 0} (f : ℕ → A) → Keeping (ask f)
  Keeping-ask f = Triple-ask (Audited limits) (Audited limits) f

  pub Keeping-session :
      {A : Type 0} (body : Db → Result Failure (A × Db))
      → ((db : Db) → Audited limits db → Committed (λ a. Audited limits) (body db))
      → Keeping (transaction env body)
  Keeping-session body h =
      Triple-transaction (Audited limits) _ (Audited limits) env body (λ db a. a) h

  -- Writes to a resolution do not show in the trails.
  fail_session-Audited :
      (x : String) (e : Failure) (retryable : Bool) (now : ℕ) (db : Db)
      → Audited limits db
      → Committed (λ a. Audited limits) (fail_session env limits x e retryable now db)
  unfolding fail_session fail_execution
  fail_session-Audited x e retryable now db h = elim (Option-cases (find_execution x db)) [
    | inl missing ↦ rw (missing, fail_session) tt
    | inr (r, found) ↦
        rw (found, fail_session)
          (record {
            trail =
                (set_execution-Audited limits x _ db
                  (record { key = λ r. refl; counts = λ r. refl }) h).trail;
          })
  ]

  pub record_failure-Keeping :
      (x : String) (e : Failure) (retryable : Bool)
      → Keeping (record_failure env limits x e retryable)
  unfolding record_failure
  record_failure-Keeping x e retryable =
      Keeping-bind (Keeping-ask env.now)
        λ now. Keeping-session _ (fail_session-Audited x e retryable now)

  exhaust_session-Audited :
      (x : String) (db : Db)
      → Audited limits db
      → Committed (λ a. Audited limits) (exhaust_session env limits x db)
  unfolding exhaust_session
  exhaust_session-Audited x db h = elim (Option-cases (find_execution x db)) [
    | inl missing ↦ rw (missing, exhaust_session) h
    | inr (r, found) ↦
        rw (found, exhaust_session)
          (set_execution-Audited limits x _ db (record { key = λ r. refl; counts = λ r. refl }) h)
  ]

  pub record_terminal_failure-Keeping :
      (x : String) (e : Failure) → Keeping (record_terminal_failure env limits x e)
  unfolding record_terminal_failure
  record_terminal_failure-Keeping x e =
      Keeping-bind (Keeping-session _ (exhaust_session-Audited x)) λ present.
        Triple-if present _ _
          (λ here. Keeping-bind (record_failure-Keeping x e false) λ a. Triple-pure _ (λ w h. h))
          (λ gone. Triple-pure _ (λ w h. h))

  claim_resolution-Audited :
      (row now : ℕ) (db : Db)
      → Audited limits db
      → Audited limits (claim_resolution env event row now db)
  unfolding claim_resolution
  claim_resolution-Audited row now db h =
      elim (Option-cases (find_resolution event.incident_id db)) [
        | inl missing ↦ rw (missing, claim_resolution) (record { trail = h.trail })
        | inr (r, found) ↦ rw (found, claim_resolution) (record { trail = h.trail })
      ]

  empty-Trail : (steps : List AgentStepRecord) → steps ≡ [] → Trail limits (some (0, 0)) steps
  empty-Trail steps e = rw e (record {
    numbered = tt;
    step_budget = omega arith;
    tool_budget = omega arith;
    one_retrieval = omega arith;
    counted = (refl, refl);
  })

  no_row :
      (x : String) (db : Db)
      → any (clashes env event x) db.executions ≡ false
      → find_execution x db ≡ none
  no_row x db fresh =
      find-none (by_execution x) db.executions
        (any_mono (clashes env event x) (by_execution x) db.executions (λ r e. ground arith) fresh)

  -- An execution that has no row has no steps, so the trail of a new row starts empty.
  abbrev with_execution : String → ℕ → ℕ → Db → Db
  with_execution x row now db = record db {
    executions = db.executions ++ new_execution env event x row now ∷ [];
  }

  own_start :
      (x : String) (row now : ℕ) (db : Db)
      → find_execution x db ≡ none
      → Trail limits (counters_of x db) (steps_of x db)
      → Trail limits (counters_of x (with_execution x row now db)) (steps_of x db)
  unfolding new_execution
  own_start x row now db missing t =
      rw
        (
          find-snoc (by_execution x) db.executions (new_execution env event x row now) missing,
          eq_refl x,
        )
        (empty-Trail (steps_of x db) (rw missing at t.counted))

  created-Trail :
      (y x : String) (row now : ℕ) (db : Db)
      → any (clashes env event x) db.executions ≡ false
      → Audited limits db
      → Trail limits (counters_of y (with_execution x row now db)) (steps_of y db)
  unfolding new_execution
  created-Trail y x row now db fresh t = elim (Bool-cases (str_eq x y)) [
    | inl own ↦
        subst (λ z. Trail limits (counters_of z (with_execution x row now db)) (steps_of z db))
          ((eq_iff x y).0 own) (own_start x row now db (no_row x db fresh) (t.trail x))
    | inr other ↦
        rw
          (find-snoc_other (by_execution y) db.executions (new_execution env event x row now) other)
          (t.trail y)
  ]

  resumed-Audited :
      (now : ℕ) (db : Db)
      → Audited limits db
      → Audited limits (record db {
        executions =
            modify (by_incident event.incident_id) (resume_execution env event now) db.executions;
      })
  unfolding resume_execution
  resumed-Audited now db h = record {
    trail = λ y.
        rw
          (find-modify_view (by_incident event.incident_id) (by_execution y)
            (resume_execution env event now) counters db.executions (λ r. refl) (λ r. refl))
          (h.trail y);
  }

  claim_execution-Audited :
      (x : String) (row now : ℕ) (r : Option AgentExecutionRecord) (db : Db)
      → Audited limits db
      → Committed (λ a. Audited limits) (claim_execution env event x row now r db)
  unfolding claim_execution
  claim_execution-Audited x row now none db h =
      elim (Bool-cases (any (clashes env event x) db.executions)) [
        | inl clash ↦ rw (clash, claim_execution) tt
        | inr fresh ↦
            rw (fresh, claim_execution)
              (claim_resolution-Audited row now _
                (record { trail = λ y. created-Trail y x row now db fresh h }))
      ]
  claim_execution-Audited x row now (some r) db h =
      elim (Option-cases (terminal_outcome r.status)) [
        | inl unended ↦
            rw (unended, claim_execution)
              (claim_resolution-Audited row now _ (resumed-Audited now db h))
        | inr (outcome, ended) ↦ rw (ended, claim_execution) h
      ]

  claim_session-Audited :
      (x : String) (row now : ℕ) (db : Db)
      → Audited limits db
      → Committed (λ a. Audited limits) (claim_session env event x row now db)
  unfolding claim_session
  claim_session-Audited x row now db h =
      elim (Option-cases (find (by_id event.incident_id) db.incidents)) [
        | inl missing ↦ rw (missing, claim_session) tt
        | inr (i, found) ↦ rw (found, claim_session) (claim_execution-Audited x row now _ db h)
      ]

  pub claim-Keeping : Keeping (claim env event)
  unfolding claim
  claim-Keeping = Keeping-bind (Keeping-ask env.now) λ now.
      Keeping-bind (Keeping-ask env.uuid4) λ x.
        Keeping-bind (Keeping-ask env.next_id)
          λ row. Keeping-session _ (claim_session-Audited x row now)
