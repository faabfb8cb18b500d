-- ===== src/Execution/Policy.antt =====
-- packages/hermes/src/execution/ExecutionPolicy.ts: the default policies and the retry rules.
-- `Math.pow` and `Math.min` are exact on the natural numbers that the policies hold.
pub mod Delay
use agent_os.Base.{
  ℕ, ◌-◌, ◌*◌, ◌^◌, min, String, string_eq, Bool, true, false, List, [], ◌∷◌, Option, none, some,
  includes,
}
use agent_os.Execution.Types.{
  ExecutionPolicy, RetryPolicy, RetryStrategy, fixed, exponential_backoff, cooperative,
}

unfoldable pub default_execution_policy : ExecutionPolicy
default_execution_policy = record {
  max_duration_ms = 300000;
  max_retries = 3;
  max_steps = 50;
  default_step_timeout_ms = 30000;
  cancellation = cooperative;
  enable_checkpoints = true;
}

unfoldable pub default_retry_policy : RetryPolicy
default_retry_policy = record {
  strategy = exponential_backoff;
  max_attempts = 3;
  base_delay_ms = 1000;
  max_delay_ms = 30000;
  multiplier = 2;
  retry_on = "STEP_FAILED" ∷ "STEP_TIMEOUT" ∷ "TOOL_TIMEOUT" ∷ "TOOL_EXECUTION_FAILED" ∷ [];
}

unfoldable pub no_retry_policy : RetryPolicy
no_retry_policy = record {
  strategy = RetryStrategy.none;
  max_attempts = 0;
  base_delay_ms = 0;
  max_delay_ms = 0;
  multiplier = 1;
  retry_on = [];
}

unfoldable pub fixed_retry_policy : RetryPolicy
fixed_retry_policy = record {
  strategy = fixed;
  max_attempts = 3;
  base_delay_ms = 2000;
  max_delay_ms = 2000;
  multiplier = 1;
  retry_on = "STEP_FAILED" ∷ "STEP_TIMEOUT" ∷ [];
}

abbrev pub is_none : RetryStrategy → Bool
is_none RetryStrategy.none = true
is_none _ = false

retry_on_code : Option String → List String → Bool
retry_on_code none retry_on = false
retry_on_code (some code) retry_on = includes retry_on code

unfoldable pub is_retryable : Option String → RetryPolicy → Bool
unfolding retry_on_code
is_retryable error_code policy = elim (is_none policy.strategy) [
  | true ↦ false
  | false ↦ retry_on_code error_code policy.retry_on
]

delay_by : RetryStrategy → ℕ → RetryPolicy → ℕ
delay_by RetryStrategy.none attempt policy = 0
delay_by fixed attempt policy = policy.base_delay_ms
delay_by exponential_backoff attempt policy =
    min (policy.base_delay_ms * policy.multiplier ^ (attempt - 1)) policy.max_delay_ms

-- The callers count attempts from 1, so `attempt - 1` is exact.
unfoldable pub calculate_retry_delay : ℕ → RetryPolicy → ℕ
unfolding delay_by
calculate_retry_delay attempt policy = delay_by policy.strategy attempt policy
