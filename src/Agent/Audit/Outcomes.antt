-- ===== src/Agent/Audit/Outcomes.antt =====
-- What the outcome COMPLETED of `_resolve` promises of the database.
use ai_support_engineering_p.Agent.Audit.{Audited}
use ai_support_engineering_p.Agent.Audit.Resolved.{
  AfterLoop, claim_and_start-Keeping, ended, run-AfterLoop,
}
use ai_support_engineering_p.Agent.Audit.Stepping.{Completed}
use ai_support_engineering_p.Agent.Claim.{Outcome}
use ai_support_engineering_p.Agent.Env.{Env, World}
use ai_support_engineering_p.Agent.Failure.{Failure}
use ai_support_engineering_p.Agent.Loop.{
  Handler, Run, claim_and_start, handled, handler_of, resolve, run_claimed, settle, settle_run,
}
use ai_support_engineering_p.Agent.Models.{AgentLimits, IncidentCreatedEvent}
use ai_support_engineering_p.Common.{String, ap, none, some, subst, sym, ℕ, ◌∙◌, ◌≡◌}
use ai_support_engineering_p.Common.Exec.{err, ok, pure}
use ai_support_engineering_p.Common.Exec.Triple.{
  Ends, Triple, Triple-any, Triple-bind, Triple-if, Triple-pure, Triple-raise,
}

module _ (env : Env) (limits : AgentLimits) (event : IncidentCreatedEvent) (x : String) where
  abbrev Promised : Outcome → World → Type 0
  Promised Outcome.completed w = Completed env limits event x w.db
  Promised Outcome.failed w = Unit

  abbrev Raised : Failure → World → Type 0
  Raised e w = Unit

  -- No `except` clause returns COMPLETED.
  handled-Promised :
      (e : Failure) (h : Handler)
      → Triple (λ w. Unit) (handled env limits event x e h) Promised Raised
  unfolding handled
  handled-Promised e Handler.transient =
      Triple-bind (λ a w. Unit) (Triple-any (λ a w. tt) (λ e w. tt)) λ a. Triple-raise _ (λ w h. tt)
  handled-Promised e Handler.invalid =
      Triple-bind (λ a w. Unit) (Triple-any (λ a w. tt) (λ e w. tt))
        λ terminal.
          Triple-if terminal _ _ (λ t. Triple-pure _ (λ w h. tt)) (λ f. Triple-raise _ (λ w h. tt))
  handled-Promised e Handler.exhausted =
      Triple-bind (λ a w. Unit) (Triple-any (λ a w. tt) (λ e w. tt)) λ a. Triple-pure _ (λ w h. tt)
  handled-Promised e Handler.uncaught = Triple-raise e (λ w h. tt)

  abbrev PromisedRun : Run Outcome → Type 0
  PromisedRun none = Unit
  PromisedRun (some (r, w)) = Ends Promised Raised (r, w)

  settle_run-Promised :
      (o : Run (Unit {0}))
      → AfterLoop env limits event x o
      → PromisedRun (settle_run env limits event x o)
  unfolding settle pure
  settle_run-Promised none h = tt
  settle_run-Promised (some (ok a, w)) h = h
  settle_run-Promised (some (err e, w)) h = (handled-Promised e (handler_of e)).at w tt

  -- If `_resolve` claims an execution that is still open, from a database with sound audit trails,
  -- and then returns COMPLETED, the database holds a succeeded `get_incident` step and a succeeded
  -- `retrieve_runbooks` step of this execution, the execution awaits review, the resolution of the
  -- incident is completed, and the audit trails are sound.
  pub resolve-Completed :
      (w w₁ w' : World) (started : ℕ)
      → Audited limits w.db
      → claim_and_start env limits event w ≡ (ok (started, x, none), w₁)
      → resolve env limits event w ≡ some (ok Outcome.completed, w')
      → Completed env limits event x w'.db
  unfolding resolve
  resolve-Completed w w₁ w' started h c e =
      let audited : Audited limits w₁.db =
        subst (λ o. Audited limits o.1.db) c
          (ended env limits event _ ((claim_and_start-Keeping env limits event).at w h)) in
      subst PromisedRun (ap (run_claimed env limits event) (sym c) ∙ e)
        (settle_run-Promised _ (run-AfterLoop env limits event x started w₁ audited))
