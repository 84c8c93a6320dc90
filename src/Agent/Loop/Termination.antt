-- ===== src/Agent/Loop/Termination.antt =====
-- The loop of `_resolve` ends: every round that goes on has added a step, of which there are at
-- most `max_steps`, or has used up one of the repairs.
-- The arithmetic of `rounds_left`: m steps allowed, n taken, k repairs allowed, r used.
use ai_support_engineering_p.Agent.Acting.{Next, act_final, act_on, act_tool, again, finished}
use ai_support_engineering_p.Agent.Claim.{Outcome}
use ai_support_engineering_p.Agent.Env.{Env, World}
use ai_support_engineering_p.Agent.Failing.{check_budgets}
use ai_support_engineering_p.Agent.Failure.{Failure}
use ai_support_engineering_p.Agent.Loop.{
  Run, claim_and_start, enough_fuel, iterate, loop, resolve, restore, resume, run, run_claimed,
  settle, settle_run, start,
}
use ai_support_engineering_p.Agent.Loop.Progress.{
  Any, Progress, Raised, Then, Turned, act_final-Progress, act_tool-Progress, plan_turn-Turned,
}
use ai_support_engineering_p.Agent.Models.{AgentLimits, IncidentCreatedEvent, PlannerDecision}
use ai_support_engineering_p.Agent.Planning.{LoopState, Planned}
use ai_support_engineering_p.Common.{
  Option, String, ap, arith, leb, leb-false→lt, length, none, refl, some, suc, zero, ℕ, ◌*◌, ◌+◌,
  ◌-◌, ◌<◌, ◌∙◌, ◌≡◌, ◌≤◌,
}
use ai_support_engineering_p.Common.Exec.{Result, err, ok}
use ai_support_engineering_p.Common.Exec.Triple.{
  Ends, Triple, Triple-any, Triple-assume, Triple-bind, Triple-if, Triple-mono, Triple-pure,
  Triple-raise,
}
use ai_support_engineering_p.Db.{NextAction}

replan_closer :
    (m n n' r r' k : ℕ)
    → n < m
    → n' ≡ n
    → r' ≡ r + 1
    → r' ≤ k
    → (m - n') * (k + 1) + (k - r') < (m - n) * (k + 1) + (k - r)
replan_closer m n n' r r' k h s e l = rw s (omega arith)

below_fuel : (m n r k : ℕ) → (m - n) * (k + 1) + (k - r) < (m + 1) * (k + 1)
below_fuel m n r k = let p : (m - n) * (k + 1) ≤ m * (k + 1) = grind arith in omega arith

none_ended : {A : Type 0} {r : A} → none ≡ some r → ⊥
none_ended h = cc

one_less : (d r r' k : ℕ) → r' ≤ k → d * (k + 1) + (k - r') < (d + 1) * (k + 1) + (k - r)
one_less d r r' k l = omega arith

step_closer :
    (m n n' r r' k : ℕ)
    → n < m
    → n' ≡ n + 1
    → r' ≤ k
    → (m - n') * (k + 1) + (k - r') < (m - n) * (k + 1) + (k - r)
step_closer m n n' r r' k h e l =
    let d : m - n ≡ (m - n') + 1 = omega arith in rw d (one_less (m - n') r r' k l)

module _ (env : Env) (limits : AgentLimits) (event : IncidentCreatedEvent) (x : String) where
  -- A measure of the rounds that are left, below `enough_fuel` at the start.
  abbrev rounds_left : LoopState → ℕ
  rounds_left s =
      (limits.max_steps - length s.steps) * (limits.repair_attempts + 1)
      + (limits.repair_attempts - s.repair_count)

  abbrev Closer : LoopState → Next → World → Type 0
  Closer s finished w = Unit
  Closer s (again s') w =
      (rounds_left s' < rounds_left s) × (s'.repair_count ≤ limits.repair_attempts)

  act-Closer :
      (s s' : LoopState) (decision : PlannerDecision)
      → length s.steps < limits.max_steps
      → s'.steps ≡ s.steps
      → Triple
          (Any env limits event x)
          (act_on env limits event x (Planned.act s' decision))
          (Closer s)
          (Raised env limits event x)
  unfolding act_on
  act-Closer s s' decision h e =
      Triple-mono (λ w p. tt) closer (λ err w p. tt)
        (elim decision.next_action
          as (λ a. Then env limits event x s' (elim a [
            | NextAction.tool ↦ act_tool env limits event x s' decision
            | NextAction.final ↦ act_final env limits event x s' decision
          ])) [
            | NextAction.tool ↦ act_tool-Progress env limits event x s' decision
            | NextAction.final ↦ act_final-Progress env limits event x s' decision
          ])
    where
      closer :
          (n : Next) (w : World) → Progress env limits event x (length s'.steps) n w → Closer s n w
      closer finished w p = tt
      closer (again t) w p = (step_closer _ _ _ _ _ _ h (p.0 ∙ ap (λ l. length l + 1) e) p.1, p.1)

  turn-Closer :
      (s : LoopState) (turn : Planned)
      → length s.steps < limits.max_steps
      → Triple
          (Turned env limits event x s turn)
          (act_on env limits event x turn)
          (Closer s)
          (Raised env limits event x)
  unfolding act_on
  turn-Closer s (Planned.act s' decision) h = Triple-assume (act-Closer s s' decision h)
  turn-Closer s (Planned.replan s') h =
      Triple-assume λ t.
        Triple-pure (again s') λ w p. (replan_closer _ _ _ _ _ _ h (ap length t.0) t.1 t.2, t.2)

  check_budgets-within :
      (started n : ℕ)
      → Triple
          (Any env limits event x)
          (check_budgets env limits x started n)
          (λ a w. n < limits.max_steps)
          (Raised env limits event x)
  unfolding check_budgets
  check_budgets-within started n =
      Triple-if (leb limits.max_steps n) _ _ (λ over. Triple-raise _ (λ w h. tt))
        λ within. Triple-any (λ a w. leb-false→lt _ _ within) (λ e w. tt)

  iterate-Closer :
      (started : ℕ) (s : LoopState)
      → Triple
          (Any env limits event x)
          (iterate env limits event x started s)
          (Closer s)
          (Raised env limits event x)
  unfolding iterate
  iterate-Closer started s =
      Triple-bind (λ a w. length s.steps < limits.max_steps)
        (check_budgets-within started (length s.steps))
        λ a. Triple-assume λ within.
          Triple-bind (Turned env limits event x s) (plan_turn-Turned env limits event x s)
            (λ turn. turn-Closer s turn within)

  abbrev Ended : Run (Unit {0}) → Type 0
  Ended o = (r : Result Failure (Unit {0}) × World) × (o ≡ some r)

  resumed :
      (s : LoopState) (k : LoopState → World → Run (Unit {0})) (o : Result Failure Next × World)
      → ((s' : LoopState) (w : World) → rounds_left s' < rounds_left s → Ended (k s' w))
      → Ends (Closer s) (Raised env limits event x) o
      → Ended (resume env limits event k o)
  resumed s k (err e, w) rest p = ((err e, w), refl)
  resumed s k (ok finished, w) rest p = ((ok tt, w), refl)
  resumed s k (ok (again s'), w) rest p = rest s' w p.0

  -- With more fuel than rounds are left the loop returns or raises.
  pub loop_ends :
      (fuel started : ℕ) (s : LoopState) (w : World)
      → rounds_left s < fuel
      → Ended (loop env limits event fuel x started s w)
  unfolding loop
  loop_ends zero started s w h = absurd (omega arith)
  loop_ends (suc fuel) started s w h =
      resumed s (loop env limits event fuel x started) (iterate env limits event x started s w)
        (λ s' w' closer. loop_ends fuel started s' w' (omega arith))
        ((iterate-Closer started s).at w tt)

  start_ends :
      (started : ℕ) (o : Result Failure LoopState × World)
      → Ended (start env limits event x started o)
  start_ends started (err e, w) = ((err e, w), refl)
  start_ends started (ok s, w) =
      loop_ends (enough_fuel env limits event) started s w
        (below_fuel limits.max_steps (length s.steps) s.repair_count limits.repair_attempts)

  run_ends : (started : ℕ) (w : World) → Ended (run env limits event x started w)
  unfolding run
  run_ends started w = start_ends started (restore env limits event x w)

module _ (env : Env) (limits : AgentLimits) (event : IncidentCreatedEvent) where
  settled :
      (x : String) (o : Run (Unit {0}))
      → Ended env limits event x o
      → (r : Result Failure Outcome × World) × (settle_run env limits event x o ≡ some r)
  settled x none h = absurd (none_ended h.1)
  settled x (some (r, w)) h = (settle env limits event x r w, refl)

  claimed_ends :
      (o : Result Failure (ℕ × String × Option Outcome) × World)
      → (r : Result Failure Outcome × World) × (run_claimed env limits event o ≡ some r)
  claimed_ends (err e, w) = ((err e, w), refl)
  claimed_ends (ok (started, x, some outcome), w) = ((ok outcome, w), refl)
  claimed_ends (ok (started, x, none), w) =
      settled x (run env limits event x started w) (run_ends env limits event x started w)

  -- `_resolve` returns or raises for every event, every environment and every database: its loop
  -- never outlasts (max_steps + 1) * (repair_attempts + 1) rounds.
  pub resolve_total :
      (w : World) → (r : Result Failure Outcome × World) × (resolve env limits event w ≡ some r)
  unfolding resolve
  resolve_total w = claimed_ends (claim_and_start env limits event w)
