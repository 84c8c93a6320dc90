-- ===== src/Events/Delay.antt =====
-- The retry delay of the outbox.
use ai_support_engineering_p.Common.{arith, min, ℕ, ◌^◌, ◌≤◌}
use ai_support_engineering_p.Common.Exec.{attempt}
use ai_support_engineering_p.Events.Dispatcher.{retry_delay}
use native.Mathlib.Nat.{one-le-pow, pow-le-pow_right}

-- `_retry_delay` grows with the attempts and stays between one second and one minute.
pub retry_delay_lem :
    (attempt later : ℕ)
    → attempt ≤ later
    → (1 ≤ retry_delay attempt)
      × (retry_delay attempt ≤ retry_delay later)
      × (retry_delay later ≤ 60)
unfolding retry_delay
retry_delay_lem attempt later h =
    let capped : min attempt 6 ≤ min later 6 = omega arith in
    let grown : 2 ^ min attempt 6 ≤ 2 ^ min later 6 = pow-le-pow_right (omega arith) capped in
    let one : 1 ≤ 2 ^ min attempt 6 = one-le-pow (min attempt 6) 2 (omega arith) in
    (omega arith, omega arith, omega arith)
