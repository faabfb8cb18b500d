-- ===== src/Execution/Tests.antt =====
-- The theorems about retries, the history and checkpoints at concrete states.
use agent_os.Base.{◌+◌, ◌≤◌, ◌≡◌, refl, arith, true, false, [], ◌∷◌, none, some, string_eq, nat_eq}
use agent_os.Base.Map.{get}
use agent_os.Execution.Types.{
  ExecutionIds, ExecutionStepResult, ExecutionCheckpoint, given, ExecutionStatus,
  exponential_backoff,
}
use agent_os.Execution.Policy.{default_retry_policy, calculate_retry_delay, is_retryable}
use agent_os.Execution.Policy.Delay.{calculate_retry_delay_backoff}
use agent_os.Execution.Retry.{RetryManager, attempts_of, should_retry, record_attempt}
use agent_os.Execution.Retry.Budget.{Within, record_attempt_counts, record_attempt-Within}

-- Step "a" was retried twice under the default policy.
abbrev twice : RetryManager
twice = record {
  retry_states =
      (
        "a",
        record {
          step_id = "a";
          attempt = 2;
          max_attempts = 3;
          exhausted = false;
          next_delay_ms = 4000;
        },
      )
      ∷ [];
  retry_policy = record {
    strategy = exponential_backoff;
    max_attempts = 3;
    base_delay_ms = 1000;
    max_delay_ms = 30000;
    multiplier = 2;
    retry_on = "STEP_FAILED" ∷ [];
  };
}

record_attempt_counts_example : (record_attempt twice "a").1.attempt ≡ attempts_of twice "a" + 1
record_attempt_counts_example = (record_attempt_counts twice "a").1

twice-Within : Within twice
unfolding attempts_of get
twice-Within j = ground arith

twice-should_retry : should_retry twice "a" (some "STEP_FAILED") ≡ true
unfolding should_retry attempts_of get is_retryable
twice-should_retry = refl

record_attempt-Within_example : Within (record_attempt twice "a").0
record_attempt-Within_example =
    record_attempt-Within twice "a" (some "STEP_FAILED") twice-Within twice-should_retry

default_strategy : default_retry_policy.strategy ≡ exponential_backoff
unfolding default_retry_policy
default_strategy = refl

default_multiplier : 1 ≤ default_retry_policy.multiplier
unfolding default_retry_policy
default_multiplier = omega arith

calculate_retry_delay_backoff_example :
    (calculate_retry_delay 2 default_retry_policy ≤ calculate_retry_delay 9 default_retry_policy)
    × (calculate_retry_delay 9 default_retry_policy ≤ default_retry_policy.max_delay_ms)
calculate_retry_delay_backoff_example =
    calculate_retry_delay_backoff 2 9 default_retry_policy default_strategy default_multiplier
      (omega arith)

-- The first step succeeded.
abbrev first_done : ExecutionStepResult
first_done = record {
  step_id = "a";
  success = true;
  error = none;
  error_code = none;
  duration_ms = 7;
  retry_attempts = 1;
  completed_at = 20;
}

abbrev ids : ExecutionIds
ids = record {
  execution_id = "e";
  goal_id = "g";
  plan_id = "p";
  session_id = "s";
  parent_execution_id = none;
  correlation_id = "c";
}

abbrev midway : ExecutionCheckpoint
midway = record {
  id = given "ckpt";
  ids = ids;
  current_step_id = "b";
  completed_step_ids = "a" ∷ [];
  remaining_step_ids = "c" ∷ [];
  status = ExecutionStatus.running;
  step_results = first_done ∷ [];
  statistics = record {
    steps_completed = 1;
    steps_failed = 0;
    steps_skipped = 0;
    retry_attempts = 1;
    duration_ms = 7;
    step_durations = ("a", 7) ∷ [];
  };
  timestamp = 20;
}
