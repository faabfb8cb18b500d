-- ===== src/Execution/Retry.antt =====
-- packages/hermes/src/execution/ExecutionRetry.ts: how often each step was retried.
pub mod Budget
use agent_os.Base.{
  ℕ, ◌+◌, String, string_eq, Bool, false, not, ◌&&◌, List, [], ◌∷◌, Option, none, some, ltb, leb,
  if◌then◌else◌,
}
use agent_os.Base.Map.{Map, get, put, remove, values}
use agent_os.Execution.Types.{RetryPolicy}
use agent_os.Execution.Policy.{is_none, is_retryable, calculate_retry_delay}

pub record RetryState : Type 0 where
  pub step_id : String
  pub attempt : ℕ
  pub max_attempts : ℕ
  pub exhausted : Bool
  pub next_delay_ms : ℕ

pub record RetryManager : Type 0 where
  pub retry_states : Map String RetryState
  pub retry_policy : RetryPolicy

-- What `recordAttempt` returns.
pub record Attempt : Type 0 where
  pub delay_ms : ℕ
  pub attempt : ℕ
  pub exhausted : Bool

unfoldable pub new_manager : RetryPolicy → RetryManager
new_manager policy = record { retry_states = []; retry_policy = policy }

-- `state?.attempt ?? 0`
attempt_or_zero : Option RetryState → ℕ
attempt_or_zero none = 0
attempt_or_zero (some s) = s.attempt

unfoldable pub attempts_of : RetryManager → String → ℕ
unfolding attempt_or_zero
attempts_of m step_id = attempt_or_zero (get m.retry_states step_id)

unfoldable pub should_retry : RetryManager → String → Option String → Bool
should_retry m step_id error_code =
    let attempt = attempts_of m step_id + 1 in
    if is_none m.retry_policy.strategy
    then false
    else if ltb m.retry_policy.max_attempts attempt
    then false
    else is_retryable error_code m.retry_policy

-- The state that `recordAttempt` stores.
unfoldable pub next_state : RetryManager → String → RetryState
next_state m step_id =
    let attempt = attempts_of m step_id + 1 in
    record {
      step_id = step_id;
      attempt = attempt;
      max_attempts = m.retry_policy.max_attempts;
      exhausted = leb m.retry_policy.max_attempts attempt;
      next_delay_ms = calculate_retry_delay (attempt + 1) m.retry_policy;
    }

unfoldable pub record_attempt : RetryManager → String → RetryManager × Attempt
unfolding next_state
record_attempt m step_id =
    let attempt = attempts_of m step_id + 1 in
    (
      record m { retry_states = put m.retry_states step_id (next_state m step_id) },
      record {
        delay_ms = calculate_retry_delay attempt m.retry_policy;
        attempt = attempt;
        exhausted = leb m.retry_policy.max_attempts attempt;
      },
    )

unfoldable pub get_state : RetryManager → String → Option RetryState
get_state m step_id = get m.retry_states step_id

-- `reset`
unfoldable pub reset_step : RetryManager → String → RetryManager
reset_step m step_id = record m { retry_states = remove m.retry_states step_id }

unfoldable pub reset_all : RetryManager → RetryManager
reset_all m = record m { retry_states = [] }

abbrev pub sum_attempts : List RetryState → ℕ
sum_attempts [] = 0
sum_attempts (s ∷ states) = s.attempt + sum_attempts states

unfoldable pub get_total_attempts : RetryManager → ℕ
get_total_attempts m = sum_attempts (values m.retry_states)
