-- ===== src/Execution/Loop/Success/Whole.antt =====
-- A whole run whose executor succeeds at every step.
use agent_os.Execution.Loop.Success.Rules.{Seen}
use agent_os.Execution.Loop.Success.Rounds.{complete_all}
use agent_os.Base.{ℕ, String, List, [], ◌≡◌}
use agent_os.Planning.Types.{PlanStep, PlanResult}
use agent_os.Execution.Types.{
  ExecutionStatus as Status, ExecutionStepState as StepState, status_eq, ExecutionIds,
  ExecutionPolicy, RetryPolicy,
}
use agent_os.Execution.State.{StateMachine, get_step_state}
use agent_os.Execution.Context.{new_context, set_plan}
use agent_os.Execution.Loop.Monad.{World}

-- The machine at the end of the run that began at `s`.
abbrev final_machine : List PlanStep → Seen → StateMachine
final_machine steps s = record (complete_all steps s).machine { current_status = Status.completed }

abbrev IsCompleted : StateMachine → PlanStep → Type 0
IsCompleted m step = get_step_state m step.id ≡ StepState.completed

-- The world in which a new execution is given a plan.
unfoldable pub fresh_world :
    ExecutionIds → String → ExecutionPolicy → RetryPolicy → ℕ → ℕ → PlanResult → World
fresh_world ids goal policy retries counter now plan = record {
  context = set_plan plan (new_context ids goal policy retries counter now);
  events = [];
  calls = [];
  replans = 0;
  sleeps = 0;
  waits = 0;
}
