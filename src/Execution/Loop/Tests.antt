-- ===== src/Execution/Loop/Tests.antt =====
-- The theorems about the loop at a concrete plan and environment.
use agent_os.Base.{
  ◌++◌, ◌+◌, ◌*◌, ◌≤◌, ◌⊎◌, length, arith, ◌≡◌, ◌≢◌, refl, Bool, true, false, [], ◌∷◌, none, some,
  string_eq,
}
use agent_os.Base.Map.{get, put}
use agent_os.Planning.Types.{PlanStep, PlanResult, PlanStatus}
use agent_os.Execution.Types.{
  ExecutionIds, ExecutionStepResult, ExecutionStatus as Status, ExecutionStepState as StepState,
  ExecutionStatus-discrete, ExecutionStepState-discrete, invalid_transition, ExecutionPolicy,
  cooperative,
}
use agent_os.Execution.Policy.{no_retry_policy, fixed_retry_policy}
use agent_os.Execution.Retry.{new_manager}
use agent_os.Execution.Loop.Calls.{calls-iterate_cancelled}
use agent_os.Execution.Loop.Quiet.{IsQuiet}
use agent_os.Execution.Loop.Quiet.Ends.{execute_ends}
use agent_os.Execution.State.{
  can_transition, is_terminal_status, valid_execution_transitions, valid_step_transitions,
  transition, set_step_state, get_step_state, can_pause,
}
use agent_os.Execution.Checkpoint.{validate_checkpoint}
use agent_os.Execution.Context.{Context, new_context, get_current_step, add_step_result, next_step}
use agent_os.Execution.Loop.Monad.{
  pause, result, Env, World, return, throw, ◌>>=◌, ◌>>◌, pure, raise, gets, try_catch, modify,
  modify_history, emit, set_status, set_step,
}
use agent_os.Execution.Loop.{
  execute, run_rounds, run_plan, iterate, execute_step, perform_all, await_reply, pause_execution,
  create_step_checkpoint,
}
use agent_os.Execution.Loop.Final.{status_of, run_plan-is_terminal}
use agent_os.Execution.Loop.Ending.{run_plan_paused}
use agent_os.Execution.Loop.Checkpoints.{validate_checkpoint-create_step_checkpoint}

abbrev ids : ExecutionIds
ids = record {
  execution_id = "e";
  goal_id = "g";
  plan_id = "p";
  session_id = "s";
  parent_execution_id = none;
  correlation_id = "c";
}

abbrev only_step : PlanStep
only_step = record {
  id = "a";
  title = "first";
  description = "the only step";
  tool = none;
  depends_on = [];
  expected_result = "done";
  status = PlanStatus.ready;
}

abbrev plan : PlanResult
plan = record {
  id = "p";
  steps = only_step ∷ [];
  dependencies = [];
  required_tools = [];
  status = PlanStatus.ready;
}

abbrev done : ExecutionStepResult
done = record {
  step_id = "a";
  success = true;
  error = none;
  error_code = none;
  duration_ms = 7;
  retry_attempts = 0;
  completed_at = 27;
}

-- The executor succeeds, and a caller pauses the execution while it runs.
abbrev pausing : Env
pausing = record {
  executor = λ n step. record { controls = pause ∷ []; clock = 27; answer = result done };
  replan_callback = none;
  sleeping = λ n ms. record { controls = []; clock = 30; answer = tt };
  resuming = λ n. record { controls = []; clock = 30; answer = tt };
}

abbrev policy : ExecutionPolicy
policy = record {
  max_duration_ms = 300000;
  max_retries = 3;
  max_steps = 50;
  default_step_timeout_ms = 30000;
  cancellation = cooperative;
  enable_checkpoints = false;
}

abbrev context_in : Status → Bool → Context
context_in status aborted = record (new_context ids "goal" policy no_retry_policy 0 20) {
  plan = some plan;
  aborted = aborted;
  machine = record { current_status = status; step_states = [] };
}

abbrev world_in : Status → Bool → World
world_in status aborted = record {
  context = context_in status aborted;
  events = [];
  calls = [];
  replans = 0;
  sleeps = 0;
  waits = 0;
}

failed_world : is_terminal_status (status_of (world_in Status.failed false)) ≡ true
unfolding is_terminal_status
failed_world = refl

run_plan-is_terminal_example :
    status_of (run_plan pausing 3 (world_in Status.failed false)).1
    ≡ status_of (world_in Status.failed false)
run_plan-is_terminal_example =
    run_plan-is_terminal pausing 3 (world_in Status.failed false) failed_world

running_world : can_transition (context_in Status.running true).machine Status.cancelled ≡ true
unfolding can_transition valid_execution_transitions ExecutionStatus-discrete
running_world = refl

abbrev after_rounds : World
after_rounds = (run_rounds pausing 2 (world_in Status.running false)).1

-- What the runs below compute with.
program : Unit {0}
unfolding new_context run_rounds iterate execute_step perform_all await_reply pause_execution ◌>>=◌
    ◌>>◌ pure raise gets try_catch modify modify_history emit set_status set_step get put transition
    set_step_state get_step_state valid_execution_transitions valid_step_transitions
    ExecutionStatus-discrete ExecutionStepState-discrete can_pause get_current_step add_step_result
    next_step
program = tt

rounds_end : run_rounds pausing 2 (world_in Status.running false) ≡ (return tt, after_rounds)
unfolding program
rounds_end = refl

rounds_paused : status_of after_rounds ≡ Status.paused
unfolding program
rounds_paused = refl

run_plan_paused_example :
    (run_plan pausing 2 (world_in Status.running false)).0
    ≡ throw (invalid_transition Status.paused Status.failed)
run_plan_paused_example =
    (run_plan_paused pausing 2 (world_in Status.running false) after_rounds rounds_end
      rounds_paused).0

validate_checkpoint-create_step_checkpoint_example :
    validate_checkpoint
      (create_step_checkpoint (add_step_result done (context_in Status.running false)) "a").0
    ≢ []
validate_checkpoint-create_step_checkpoint_example =
    validate_checkpoint-create_step_checkpoint (context_in Status.running false) done "a" refl refl

abbrev not_done : ExecutionStepResult
not_done = record {
  step_id = "a";
  success = false;
  error = some "offline";
  error_code = some "STEP_FAILED";
  duration_ms = 7;
  retry_attempts = 0;
  completed_at = 27;
}

-- The executor fails, and nobody interferes.
abbrev failing : Env
failing = record {
  executor = λ n step. record { controls = []; clock = 27; answer = result not_done };
  replan_callback = none;
  sleeping = λ n ms. record { controls = []; clock = 30; answer = tt };
  resuming = λ n. record { controls = []; clock = 30; answer = tt };
}

failing-IsQuiet : IsQuiet failing
failing-IsQuiet = record {
  executor_quiet = λ n step. refl;
  sleeping_quiet = λ n ms. refl;
  no_replan = refl;
}

abbrev world_fixed : World
world_fixed = record (world_in Status.pending false) {
  context = record (context_in Status.pending false) {
    retry_manager = new_manager fixed_retry_policy;
  };
}

pending_world : can_transition world_fixed.context.machine Status.running ≡ true
unfolding can_transition valid_execution_transitions ExecutionStatus-discrete
pending_world = refl

enough_fuel :
    (length plan.steps + 1) * (world_fixed.context.retry_manager.retry_policy.max_attempts + 1) ≤ 8
unfolding new_manager fixed_retry_policy
enough_fuel = omega arith

execute_ends_example :
    ((execute failing 8 world_fixed).0 ≡ return tt)
    × ((status_of (execute failing 8 world_fixed).1 ≡ Status.completed)
        ⊎ (status_of (execute failing 8 world_fixed).1 ≡ Status.failed))
execute_ends_example =
    execute_ends failing 8 world_fixed plan failing-IsQuiet refl refl pending_world enough_fuel

fresh_step : get_step_state (context_in Status.cancelled false).machine "a" ≡ StepState.pending
unfolding program
fresh_step = refl

first_step : get_current_step (context_in Status.cancelled false) ≡ some only_step
unfolding program
first_step = refl

calls-iterate_cancelled_example :
    (iterate failing (world_in Status.cancelled false)).1.calls
    ≡ (world_in Status.cancelled false).calls ++ "a" ∷ []
calls-iterate_cancelled_example =
    calls-iterate_cancelled failing (world_in Status.cancelled false) only_step refl refl first_step
      fresh_step
