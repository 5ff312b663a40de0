-- ===== src/Jobs/Retry.antt =====
-- Retries: how long they wait, and that they come to an end.
use rotsy.Base.{ℕ, ◌*◌, ◌^◌, ◌≤◌, min, text_key, arith}
use native.Mathlib.Nat.{mul-le-mul_left, pow-le-pow_right}
use rotsy.Jobs.{JobPolicy, delay_for}

-- A retry waits for five minutes at most, and never for less than the retry before it.
pub delay_for-bounds :
    (policy : JobPolicy) (attempt later : ℕ)
    → attempt ≤ later
    → (delay_for policy attempt ≤ 300000) × (delay_for policy attempt ≤ delay_for policy later)
unfolding delay_for
delay_for-bounds policy attempt later h =
    let grows : policy.retry_delay * 2 ^ min attempt 6 ≤ policy.retry_delay * 2 ^ min later 6 =
      mul-le-mul_left policy.retry_delay (pow-le-pow_right {n = 2} (omega arith) (omega arith)) in
    (omega arith, omega arith)
