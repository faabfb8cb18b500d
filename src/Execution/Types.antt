-- ===== src/Execution/Types.antt =====
-- packages/hermes/src/execution/ExecutionTypes.ts and ExecutionErrors.ts. Numbers of the source are
-- counts and milliseconds, natural numbers here; a timestamp text is the clock's reading in
-- milliseconds. The free-form `data` of a step result is read by no modelled code.
use agent_os.Base.{ℕ, String, Bool, List, Option, Eq, eq_of_discrete}
use agent_os.Base.Map.{Map}

pub data ExecutionStatus : Type 0 where
  pending running waiting retrying replanning completed cancelled failed paused : ExecutionStatus

unfoldable pub ExecutionStatus-discrete : Discrete ExecutionStatus
ExecutionStatus-discrete = hlevel

instance abbrev pub status_eq : Eq ExecutionStatus
status_eq = eq_of_discrete ExecutionStatus-discrete

pub data ExecutionStepState : Type 0 where
  pending running completed failed skipped retrying waiting : ExecutionStepState

unfoldable pub ExecutionStepState-discrete : Discrete ExecutionStepState
ExecutionStepState-discrete = hlevel

instance abbrev pub step_state_eq : Eq ExecutionStepState
step_state_eq = eq_of_discrete ExecutionStepState-discrete

pub record ExecutionIds : Type 0 where
  pub execution_id : String
  pub goal_id : String
  pub plan_id : String
  pub session_id : String
  pub parent_execution_id : Option String
  pub correlation_id : String

pub record ExecutionStepResult : Type 0 where
  pub step_id : String
  pub success : Bool
  pub error : Option String
  pub error_code : Option String
  pub duration_ms : ℕ
  pub retry_attempts : ℕ
  pub completed_at : ℕ

pub record ExecutionStatistics : Type 0 where
  pub steps_completed : ℕ
  pub steps_failed : ℕ
  pub steps_skipped : ℕ
  pub retry_attempts : ℕ
  pub duration_ms : ℕ
  pub step_durations : Map String ℕ

-- The text of an id: given from outside, or `ckpt_<clock>_<counter>`.
pub data CheckpointId : Type 0 where
  given : String → CheckpointId
  generated : (clock counter : ℕ) → CheckpointId

pub record ExecutionCheckpoint : Type 0 where
  pub id : CheckpointId
  pub ids : ExecutionIds
  pub current_step_id : String
  pub completed_step_ids : List String
  pub remaining_step_ids : List String
  pub status : ExecutionStatus
  pub step_results : List ExecutionStepResult
  pub statistics : ExecutionStatistics
  pub timestamp : ℕ

pub data Cancellation : Type 0 where
  cooperative immediate : Cancellation

pub record ExecutionPolicy : Type 0 where
  pub max_duration_ms : ℕ
  pub max_retries : ℕ
  pub max_steps : ℕ
  pub default_step_timeout_ms : ℕ
  pub cancellation : Cancellation
  pub enable_checkpoints : Bool

pub data RetryStrategy : Type 0 where
  none fixed exponential_backoff : RetryStrategy

-- The multiplier is any number in the source and a natural number here, as are the delays: policies
-- with a fraction for a multiplier are left out.
pub record RetryPolicy : Type 0 where
  pub strategy : RetryStrategy
  pub max_attempts : ℕ
  pub base_delay_ms : ℕ
  pub max_delay_ms : ℕ
  pub multiplier : ℕ
  pub retry_on : List String

-- The errors that the modelled code throws, with what their messages are built from; `other` is an
-- error from outside.
pub data ExecutionError : Type 0 where
  execution_failed : String → ExecutionError
  execution_cancelled : String → ExecutionError
  step_failed : (step_id message : String) → ExecutionError
  retry_exhausted : (step_id : String) (attempts : ℕ) → ExecutionError
  invalid_transition : (from to : ExecutionStatus) → ExecutionError
  invalid_step_transition : (from to : ExecutionStepState) → ExecutionError
  other : String → ExecutionError

-- The text of a message: given as such, or the `message` of an error.
pub data Message : Type 0 where
  text : String → Message
  message_of : ExecutionError → Message
