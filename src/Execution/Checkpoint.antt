-- ===== src/Execution/Checkpoint.antt =====
-- packages/hermes/src/execution/ExecutionCheckpoint.ts. The module's counter is passed and
-- returned; the clock's reading is the argument `now`.
pub mod Progress
use agent_os.Base.{
  ℕ, ◌+◌, ◌*◌, ◌/◌, String, string_eq, nat_eq, Bool, true, false, not, List, [], ◌∷◌, ◌++◌, ltb,
  ◌==◌, if◌then◌else◌, length, includes,
}
use agent_os.Execution.Types.{
  ExecutionStatus, ExecutionIds, ExecutionStepResult, ExecutionStatistics, CheckpointId, given,
  generated, ExecutionCheckpoint,
}

-- `generateCheckpointId`: the id and the new counter.
unfoldable pub generate_checkpoint_id : ℕ → ℕ → CheckpointId × ℕ
generate_checkpoint_id now counter = (generated now (counter + 1), counter + 1)

unfoldable pub create_checkpoint :
    ℕ
    → ℕ
    → ExecutionIds
    → String
    → List String
    → List String
    → ExecutionStatus
    → List ExecutionStepResult
    → ExecutionStatistics
    → ExecutionCheckpoint × ℕ
unfolding generate_checkpoint_id
create_checkpoint now counter ids current completed remaining status results statistics =
    let (id, counter') = generate_checkpoint_id now counter in
    (
      record {
        id = id;
        ids = ids;
        current_step_id = current;
        completed_step_ids = completed;
        remaining_step_ids = remaining;
        status = status;
        step_results = results;
        statistics = statistics;
        timestamp = now;
      },
      counter',
    )

-- `checkpoint.id.length === 0`; a generated id begins with `ckpt_`.
abbrev is_empty_id : CheckpointId → Bool
is_empty_id (given s) = s == ""
is_empty_id (generated now n) = false

pub data CheckpointError : Type 0 where
  id_required current_step_required current_already_completed count_mismatch : CheckpointError

abbrev pub complain {ℓ} : {A : Type ℓ} → Bool → A → List A
complain true e = e ∷ []
complain false e = []

-- The `errors` of the result; its `valid` is that there is none.
unfoldable pub validate_checkpoint : ExecutionCheckpoint → List CheckpointError
validate_checkpoint c =
    complain (is_empty_id c.id) id_required
    ++ complain (c.current_step_id == "") current_step_required
    ++ complain (includes c.completed_step_ids c.current_step_id) current_already_completed
    ++ complain (not (c.statistics.steps_completed == length c.completed_step_ids)) count_mismatch

pub record CheckpointProgress : Type 0 where
  pub completed : ℕ
  pub remaining : ℕ
  pub total : ℕ
  pub percentage : ℕ

-- `Math.round` of a quotient: halves go up.
unfoldable pub round_div : ℕ → ℕ → ℕ
round_div a b = (2 * a + b) / (2 * b)

unfoldable pub get_checkpoint_progress : ExecutionCheckpoint → CheckpointProgress
unfolding round_div
get_checkpoint_progress c =
    let completed = length c.completed_step_ids in
    let remaining = length c.remaining_step_ids in
    let total = completed + remaining + 1 in
    record {
      completed = completed;
      remaining = remaining;
      total = total;
      percentage = if ltb 0 total then round_div (completed * 100) total else 0;
    }

unfoldable pub no_statistics : ExecutionStatistics
no_statistics = record {
  steps_completed = 0;
  steps_failed = 0;
  steps_skipped = 0;
  retry_attempts = 0;
  duration_ms = 0;
  step_durations = [];
}

first_or_empty : List String → String
first_or_empty [] = ""
first_or_empty (s ∷ rest) = s

rest_of : List String → List String
rest_of [] = []
rest_of (s ∷ rest) = rest

unfoldable pub create_initial_checkpoint :
    ℕ → ℕ → ExecutionIds → List String → ExecutionCheckpoint × ℕ
unfolding create_checkpoint first_or_empty rest_of no_statistics
create_initial_checkpoint now counter ids step_ids =
    create_checkpoint now counter ids (first_or_empty step_ids) [] (rest_of step_ids)
      ExecutionStatus.pending [] no_statistics
