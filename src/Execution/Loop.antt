-- ===== src/Execution/Loop.antt =====
-- packages/hermes/src/execution/ExecutionLoop.ts: runs the steps of a plan one at a time, with
-- checkpoints, retries, replanning, pause, resume and cancellation. A call of the environment is a
-- parameter, `env`; the loop takes fuel, one unit for each round. An event handler only observes.
pub mod Monad
mod Controls
mod Closing
pub mod Final
pub mod Ending
pub mod Checkpoints
pub mod Quiet
pub mod Calls
pub mod Success
mod Tests
unfoldable pub use Controls.{
  pause_execution, resume_execution, cancel_execution, perform, perform_all, await_reply,
  wait_for_resume, sleep,
}
unfoldable pub use Closing.{
  finish, is_cancelled_error, failed_step_id, handle_cancelled, handle_failed, handle_error,
}
use Monad.{
  Control, pause, resume, abort, cancel, Reply, Executed, result, threw, Env, World, return, throw,
  blocked, out_of_fuel, Exec, ◌>>=◌, ◌>>◌, pure, raise, gets, try_catch, modify, modify_history,
  emit, set_status, set_step,
}
use agent_os.Base.{
  ℕ, zero, suc, ◌+◌, String, string_eq, Bool, true, false, not, ◌&&◌, ◌||◌, List, [], ◌∷◌, ◌++◌,
  map, Option, none, some, ◌==◌, if◌then◌else◌, includes, keep, length,
}
use agent_os.Planning.Types.{PlanStep, PlanResult}
use agent_os.Execution.Types.{
  ExecutionStatus as Status, ExecutionStepState as StepState, status_eq, step_state_eq,
  ExecutionStepResult, ExecutionCheckpoint, ExecutionError, execution_cancelled, retry_exhausted,
  Message, text, message_of,
}
use agent_os.Execution.State.{get_step_state, can_pause, can_resume, can_cancel}
use agent_os.Execution.Retry.{Attempt, should_retry, record_attempt}
use agent_os.Execution.History.{
  history_step_completed, complete_history, replan_requested, get_statistics,
}
use agent_os.Execution.Checkpoint.{create_checkpoint}
use agent_os.Execution.Context.{
  Context, set_plan, get_current_step, get_total_steps, next_step, add_step_result, add_checkpoint,
  start, get_duration_ms, get_total_retries, get_steps_completed, steps_of,
}
use agent_os.Execution.Events.{
  ExecutionEvent, execution_started, execution_progress, execution_paused, execution_resumed,
  execution_completed, step_started, step_completed, retry_started, checkpoint_created,
}

-- The result that stands for an executor that throws.
step_result_of : PlanStep → ℕ → Executed → ExecutionStepResult
step_result_of step now (result r) = r
step_result_of step now (threw message) = record {
  step_id = step.id;
  success = false;
  error = some message;
  error_code = some "STEP_EXECUTION_ERROR";
  duration_ms = 0;
  retry_attempts = 0;
  completed_at = now;
}

call_executor : Env → PlanStep → Exec Executed
call_executor env step w =
    await_reply (env.executor (length w.calls) step) (record w { calls = w.calls ++ step.id ∷ [] })

unfoldable pub execute_step : Env → PlanStep → Exec ExecutionStepResult
unfolding call_executor step_result_of
execute_step env step = do
  w ← gets (λ w. w)
  if not (get_step_state w.context.machine step.id == StepState.running)
      then set_step step.id StepState.running
      else pure tt
  emit (λ c. step_started step.id step.title c.current_step_index)
  answer ← call_executor env step
  now ← gets (λ w. w.context.now)
  pure (step_result_of step now answer)

-- `createStepCheckpoint`: the checkpoint and the new counter.
unfoldable pub create_step_checkpoint : Context → String → ExecutionCheckpoint × ℕ
create_step_checkpoint c completed_step_id =
    let all_step_ids = map (λ (s : PlanStep). s.id) (steps_of c.plan) in
    let completed_ids =
      map (λ (r : ExecutionStepResult). r.step_id)
        (keep (λ (r : ExecutionStepResult). r.success) c.step_results) in
    let remaining_ids =
      keep (λ id. not (includes completed_ids id) && not (id == completed_step_id)) all_step_ids in
    create_checkpoint c.now c.checkpoint_counter c.ids completed_step_id completed_ids remaining_ids
      c.machine.current_status c.step_results (get_statistics c.now c.history)

take_checkpoint : String → Exec (Unit {0})
take_checkpoint id = do
  c ← gets (λ w. w.context)
  let made = create_step_checkpoint c id
  modify (λ c. record (add_checkpoint made.0 c) { checkpoint_counter = made.1 })
  emit (λ c. checkpoint_created made.0.id (get_steps_completed c))

abbrev or_unknown : Option String → String
or_unknown none = "Unknown error"
or_unknown (some e) = e

-- The branch of a step that succeeded; the answer is `hasMore`.
step_succeeded : PlanStep → ExecutionStepResult → Exec Bool
step_succeeded step r = do
  set_step step.id StepState.completed
  emit (λ _. step_completed step.id r.duration_ms true)
  emit (λ c. execution_progress step.id (get_steps_completed c) (get_total_steps c))
  more ← gets (λ w. (next_step w.context).1)
  modify (λ c. (next_step c).0)
  pure more

retry_step : Env → PlanStep → Exec Bool
retry_step env step = do
  a ← gets (λ w. (record_attempt w.context.retry_manager step.id).1)
  modify (λ c. record c { retry_manager = (record_attempt c.retry_manager step.id).0 })
  if a.exhausted then raise (retry_exhausted step.id a.attempt) else pure tt
  emit (λ c. retry_started step.id a.attempt c.retry_manager.retry_policy.max_attempts a.delay_ms)
  set_step step.id StepState.retrying
  sleep env a.delay_ms
  set_step step.id StepState.running
  pure true

adopt_plan : Option PlanResult → Exec Bool
adopt_plan none = raise (ExecutionError.other "replan")
adopt_plan (some plan) = do modify (set_plan plan); set_status Status.running; pure true

ask : (ℕ → Reply (Option PlanResult)) → Exec (Option PlanResult)
ask callback w = await_reply (callback w.replans) (record w { replans = w.replans + 1 })

-- The end of the branch of a failed step: a new plan if there is a callback, or failure.
replan_with : Option (ℕ → Reply (Option PlanResult)) → PlanStep → ExecutionStepResult → Exec Bool
replan_with none step r = raise (ExecutionError.step_failed step.id (or_unknown r.error))
replan_with (some callback) step r = do
  modify_history (λ c. replan_requested c.now step.id r.error c.history)
  set_status Status.replanning
  try_catch (ask callback >>= adopt_plan)
      (λ _. raise (ExecutionError.step_failed step.id (or_unknown r.error)))

-- The branch of a step that failed.
step_failed : Env → PlanStep → ExecutionStepResult → Exec Bool
unfolding retry_step replan_with ask adopt_plan
step_failed env step r = do
  set_step step.id StepState.failed
  emit (λ _. ExecutionEvent.step_failed step.id (or_unknown r.error) r.duration_ms r.error_code)
  retry ← gets (λ w. should_retry w.context.retry_manager step.id r.error_code)
  if retry then retry_step env step else replan_with env.replan_callback step r

run_step : Env → PlanStep → Exec Bool
unfolding take_checkpoint
run_step env step = do
  r ← execute_step env step
  modify (add_step_result r)
  modify_history (λ c. history_step_completed c.now r c.history)
  checkpoints ← gets (λ w. w.context.policy.enable_checkpoints)
  if checkpoints then take_checkpoint step.id else pure tt
  if r.success then step_succeeded step r else step_failed env step r

check_pause : Env → Exec (Unit {0})
check_pause env = do
  w ← gets (λ w. w)
  if w.context.machine.current_status == Status.paused then wait_for_resume env else pure tt

pub run_current : Env → Option PlanStep → Exec Bool
run_current env none = pure false
run_current env (some step) = run_step env step

-- One round of the `while` loop: whether there is another.
unfoldable pub iterate : Env → Exec Bool
unfolding check_pause run_current run_step step_succeeded step_failed
iterate env = do
  w ← gets (λ w. w)
  if w.context.aborted then raise (execution_cancelled "Signal aborted") else pure tt
  check_pause env
  step ← gets (λ w. get_current_step w.context)
  run_current env step

unfoldable pub run_rounds : Env → ℕ → Exec (Unit {0})
run_rounds env zero w = (out_of_fuel, w)
run_rounds env (suc fuel) w =
    (iterate env >>= λ more. if more then run_rounds env fuel else pure tt) w

-- The `try` block of `execute` with its `catch`.
unfoldable pub run_plan : Env → ℕ → Exec (Unit {0})
run_plan env fuel = try_catch (run_rounds env fuel >> finish) handle_error

execute_plan : Env → ℕ → Option PlanResult → Exec (Unit {0})
execute_plan env fuel none = raise (ExecutionError.execution_failed "No plan set for execution")
execute_plan env fuel (some plan) = do
  modify start
  set_status Status.running
  emit (λ c. execution_started c.goal (length plan.steps))
  run_plan env fuel

unfoldable pub execute : Env → ℕ → Exec (Unit {0})
unfolding execute_plan
execute env fuel = do plan ← gets (λ w. w.context.plan); execute_plan env fuel plan
