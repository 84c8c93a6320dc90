-- ===== src/Agent/Audit/Resolved.antt =====
-- `_resolve` keeps the audit trails, however often it is called and however each call ends.
use ai_support_engineering_p.Agent.Acting.{Next, again, finished}
use ai_support_engineering_p.Agent.Audit.{Audited, NumberedFrom, steps_of}
use ai_support_engineering_p.Agent.Audit.Entry.{
  Keeping, claim-Keeping, Keeping-ask, Keeping-bind, record_failure-Keeping,
  record_terminal_failure-Keeping,
}
use ai_support_engineering_p.Agent.Audit.Kept.{iterate-Acted}
use ai_support_engineering_p.Agent.Audit.Stepping.{Completed, Next-InLoop}
use ai_support_engineering_p.Agent.Audit.Writes.{InLoop}
use ai_support_engineering_p.Agent.Claim.{Outcome}
use ai_support_engineering_p.Agent.Env.{Env, World}
use ai_support_engineering_p.Agent.Env.Rules.{Db-Triple, Triple-lift, Triple-transaction}
use ai_support_engineering_p.Agent.Failure.{Failure}
use ai_support_engineering_p.Agent.Loop.{
  Handler, Run, claim_and_start, handled, handler_of, initial_state, iterate, loop, read_steps,
  resolve, restore, resume, run, run_claimed, settle, settle_run, start,
}
use ai_support_engineering_p.Agent.Models.{AgentLimits, IncidentCreatedEvent, ToolResult}
use ai_support_engineering_p.Agent.Planning.{LoopState}
use ai_support_engineering_p.Agent.Tables.{insert_step_sorted, load_steps, order_steps}
use ai_support_engineering_p.Common.{
  List, Option, String, [], ap, arith, false, none, refl, some, subst, suc, sym, true, zero, ℕ, ◌+◌,
  ◌∙◌, ◌∷◌, ◌≡◌,
}
use ai_support_engineering_p.Common.Exec.{Result, err, ok}
use ai_support_engineering_p.Common.Exec.Triple.{
  Ends, Triple-bind, Triple-if, Triple-mono, Triple-pure, Triple-raise,
}
use ai_support_engineering_p.Db.{AgentStepRecord, Db}

insert-first :
    (n : ℕ) (r : AgentStepRecord) (rows : List AgentStepRecord)
    → r.step_number ≡ n
    → NumberedFrom (n + 1) rows
    → insert_step_sorted r rows ≡ r ∷ rows
unfolding insert_step_sorted
insert-first n r [] e h = refl
insert-first n r (s ∷ rows) e h = ground (arith, h.0)

-- A numbered trail is in order already.
order-numbered :
    (n : ℕ) (rows : List AgentStepRecord) → NumberedFrom n rows → order_steps rows ≡ rows
unfolding order_steps
order-numbered n [] h = refl
order-numbered n (r ∷ rows) h =
    ap (insert_step_sorted r) (order-numbered (n + 1) rows h.1) ∙ insert-first n r rows h.0 h.1

module _ (env : Env) (limits : AgentLimits) (event : IncidentCreatedEvent) where
  load-Audited : (x : String) (db : Db) → Audited limits db → load_steps x db ≡ steps_of x db
  unfolding load_steps
  load-Audited x db h = order-numbered 1 (steps_of x db) (h.trail x).numbered

  -- The loop starts in step with what is stored.
  initial-InLoop :
      (x : String) (db : Db) (steps : List AgentStepRecord) (results : List (ℕ × ToolResult))
      → steps ≡ steps_of x db
      → Audited limits db
      → InLoop limits x (initial_state env limits event steps results) db
  unfolding initial_state
  initial-InLoop x db steps results e h = record { audited = h; stored = sym e; calls = refl }

  -- What `restore` leaves.
  restore-InLoop :
      (x : String)
      → Db-Triple (Audited limits) (restore env limits event x) (InLoop limits x) (Audited limits)
  unfolding restore
  restore-InLoop x =
      Triple-bind (λ steps w. Audited limits w.db × (steps ≡ steps_of x w.db))
        (Triple-transaction (Audited limits)
          (λ steps db. Audited limits db × (steps ≡ steps_of x db)) (Audited limits) env
          (read_steps env limits event x) (λ db h. h) (λ db h. (h, load-Audited x db h)))
        λ steps.
          Triple-bind (λ results w. Audited limits w.db × (steps ≡ steps_of x w.db))
            (Triple-mono (λ w h. h) (λ a w h. h.0) (λ e w h. h)
              (Triple-lift (λ db. Audited limits db × (steps ≡ steps_of x db)) (Audited limits)
                (λ a. Unit) _ (λ db h. h.0) (λ a e. tt)))
            λ results. Triple-pure _ (λ w h. initial-InLoop x w.db steps results h.1 h.0)

  -- Where the fuel is not used up, a run that returns has completed the execution, and one that
  -- raises leaves the trails sound.
  abbrev pub AfterLoop : String → Run (Unit {0}) → Type 0
  AfterLoop x none = Unit
  AfterLoop x (some (ok a, w)) = Completed env limits event x w.db
  AfterLoop x (some (err e, w)) = Audited limits w.db

  resumed-AfterLoop :
      (x : String) (k : LoopState → World → Run (Unit {0})) (o : Result Failure Next × World)
      → ((s : LoopState) (w : World) → InLoop limits x s w.db → AfterLoop x (k s w))
      → Ends (λ a w. Next-InLoop env limits event x a w.db) (λ e w. Audited limits w.db) o
      → AfterLoop x (resume env limits event k o)
  resumed-AfterLoop x k (err e, w) rest h = h
  resumed-AfterLoop x k (ok finished, w) rest h = h
  resumed-AfterLoop x k (ok (again s), w) rest h = rest s w h

  loop-AfterLoop :
      (fuel : ℕ) (x : String) (started : ℕ) (s : LoopState) (w : World)
      → InLoop limits x s w.db
      → AfterLoop x (loop env limits event fuel x started s w)
  unfolding loop
  loop-AfterLoop zero x started s w h = tt
  loop-AfterLoop (suc fuel) x started s w h =
      resumed-AfterLoop x (loop env limits event fuel x started)
        (iterate env limits event x started s w) (loop-AfterLoop fuel x started)
        ((iterate-Acted env limits event x started s).at w h)

  start-AfterLoop :
      (x : String) (started : ℕ) (o : Result Failure LoopState × World)
      → Ends (λ s w. InLoop limits x s w.db) (λ e w. Audited limits w.db) o
      → AfterLoop x (start env limits event x started o)
  start-AfterLoop x started (err e, w) h = h
  start-AfterLoop x started (ok s, w) h = loop-AfterLoop _ x started s w h

  pub run-AfterLoop :
      (x : String) (started : ℕ) (w : World)
      → Audited limits w.db
      → AfterLoop x (run env limits event x started w)
  unfolding run
  run-AfterLoop x started w h = start-AfterLoop x started _ ((restore-InLoop x).at w h)

  -- Where the fuel is not used up, the trails are sound.
  abbrev AfterRun : Run Outcome → Type 0
  AfterRun none = Unit
  AfterRun (some (r, w)) = Audited limits w.db

  handled-Keeping :
      (x : String) (e : Failure) (h : Handler)
      → Keeping env limits event (handled env limits event x e h)
  unfolding handled
  handled-Keeping x e Handler.transient =
      Keeping-bind env limits event (record_failure-Keeping env limits event x e true)
        λ a. Triple-raise _ (λ w h. h)
  handled-Keeping x e Handler.invalid =
      Keeping-bind env limits event (record_failure-Keeping env limits event x e false) λ terminal.
        Triple-if terminal _ _ (λ t. Triple-pure _ (λ w h. h)) (λ f. Triple-raise _ (λ w h. h))
  handled-Keeping x e Handler.exhausted =
      Keeping-bind env limits event (record_terminal_failure-Keeping env limits event x e)
        λ a. Triple-pure _ (λ w h. h)
  handled-Keeping x e Handler.uncaught = Triple-raise e (λ w h. h)

  settle-Keeping :
      (x : String) (r : Result Failure (Unit {0}))
      → Keeping env limits event (settle env limits event x r)
  unfolding settle
  settle-Keeping x (ok a) = Triple-pure _ (λ w h. h)
  settle-Keeping x (err e) = handled-Keeping x e (handler_of e)

  pub ended :
      {A : Type 0} (o : Result Failure A × World)
      → Ends (λ a w. Audited limits w.db) (λ e w. Audited limits w.db) o
      → Audited limits o.1.db
  ended (ok a, w) h = h
  ended (err e, w) h = h

  settle_run-AfterRun :
      (x : String) (o : Run (Unit {0})) → AfterLoop x o → AfterRun (settle_run env limits event x o)
  settle_run-AfterRun x none h = tt
  settle_run-AfterRun x (some (ok a, w)) h = ended _ ((settle-Keeping x (ok a)).at w h.audited)
  settle_run-AfterRun x (some (err e, w)) h = ended _ ((settle-Keeping x (err e)).at w h)

  run_claimed-AfterRun :
      (o : Result Failure (ℕ × String × Option Outcome) × World)
      → Audited limits o.1.db
      → AfterRun (run_claimed env limits event o)
  run_claimed-AfterRun (err e, w) h = h
  run_claimed-AfterRun (ok (started, x, some outcome), w) h = h
  run_claimed-AfterRun (ok (started, x, none), w) h =
      settle_run-AfterRun x _ (run-AfterLoop x started w h)

  pub claim_and_start-Keeping : Keeping env limits event (claim_and_start env limits event)
  claim_and_start-Keeping = Keeping-bind env limits event (claim-Keeping env limits event) λ a.
      Keeping-bind env limits event (Keeping-ask env limits event env.perf_counter)
        λ started. Triple-pure _ (λ w h. h)

  -- If the audit trails of the executions are sound before `_resolve`, they are sound after it,
  -- whatever the model, the tools, the clocks and the database driver do and whether it returns
  -- or raises: the steps of each execution are numbered 1, 2, … without a gap, there are at most
  -- `max_steps` of them, at most `max_tool_calls` of them are succeeded tool calls and at most one
  -- of these is a runbook search, and the counters of the execution's row count the steps and the
  -- succeeded calls.
  pub resolve-Audited :
      (w w' : World) (r : Result Failure Outcome)
      → Audited limits w.db
      → resolve env limits event w ≡ some (r, w')
      → Audited limits w'.db
  unfolding resolve
  resolve-Audited w w' r h e =
      subst AfterRun e (run_claimed-AfterRun _ (ended _ (claim_and_start-Keeping.at w h)))
