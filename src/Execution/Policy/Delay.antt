-- ===== src/Execution/Policy/Delay.antt =====
-- The delay before a retry.
use agent_os.Base.{ℕ, ◌≤◌, min, ◌≡◌, arith}
use agent_os.Execution.Types.{RetryPolicy, exponential_backoff}
use agent_os.Execution.Policy.{calculate_retry_delay}
use native.Mathlib.Nat.{pow-le-pow_right, mul-le-mul_left}

min_mono : (a b c : ℕ) → a ≤ b → min a c ≤ min b c
min_mono a b c h = omega arith

-- Under exponential backoff with a multiplier of at least 1 the delays never fall from one attempt
-- to a later one, and none is above the policy's maximum.
pub calculate_retry_delay_backoff :
    (a b : ℕ) (p : RetryPolicy)
    → p.strategy ≡ exponential_backoff
    → 1 ≤ p.multiplier
    → a ≤ b
    → (calculate_retry_delay a p ≤ calculate_retry_delay b p)
      × (calculate_retry_delay b p ≤ p.max_delay_ms)
unfolding calculate_retry_delay
calculate_retry_delay_backoff a b p s h le =
    rw (s, calculate_retry_delay)
      (min_mono _ _ _ (mul-le-mul_left _ (pow-le-pow_right h (omega arith))), omega arith)
