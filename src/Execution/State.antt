-- ===== src/Execution/State.antt =====
-- packages/hermes/src/execution/ExecutionState.ts: the state machine of an execution and its steps.
-- A method that mutates the machine returns the new one; a throw is `err`, and changes nothing.
pub mod Laws
mod Tests
use agent_os.Base.{
  String, Bool, not, ◌&&◌, ◌||◌, List, [], ◌∷◌, Option, none, some, ◌==◌, includes, if◌then◌else◌,
  Result, ok, err, string_eq,
}
use agent_os.Base.Map.{Map, get, put}
use agent_os.Execution.Types.{
  ExecutionStatus as Status, ExecutionStepState as StepState, ExecutionStatus-discrete,
  ExecutionStepState-discrete, status_eq, step_state_eq, ExecutionError, invalid_transition,
  invalid_step_transition,
}

unfoldable pub valid_execution_transitions : Status → List Status
valid_execution_transitions Status.pending = Status.running ∷ Status.cancelled ∷ []
valid_execution_transitions Status.running =
    Status.waiting ∷ Status.retrying ∷ Status.replanning ∷ Status.completed ∷ Status.cancelled
    ∷ Status.failed ∷ Status.paused ∷ []
valid_execution_transitions Status.waiting = Status.running ∷ Status.cancelled ∷ Status.failed ∷ []
valid_execution_transitions Status.retrying = Status.running ∷ Status.failed ∷ Status.cancelled ∷ []
valid_execution_transitions Status.replanning =
    Status.running ∷ Status.cancelled ∷ Status.failed ∷ []
valid_execution_transitions Status.completed = []
valid_execution_transitions Status.cancelled = []
valid_execution_transitions Status.failed = []
valid_execution_transitions Status.paused = Status.running ∷ Status.cancelled ∷ []

unfoldable pub valid_step_transitions : StepState → List StepState
valid_step_transitions StepState.pending = StepState.running ∷ StepState.skipped ∷ []
valid_step_transitions StepState.running =
    StepState.completed ∷ StepState.failed ∷ StepState.retrying ∷ StepState.waiting
    ∷ StepState.skipped ∷ []
valid_step_transitions StepState.completed = []
valid_step_transitions StepState.failed = StepState.retrying ∷ []
valid_step_transitions StepState.skipped = []
valid_step_transitions StepState.retrying = StepState.running ∷ StepState.failed ∷ []
valid_step_transitions StepState.waiting = StepState.running ∷ StepState.failed ∷ []

pub record StateMachine : Type 0 where
  pub current_status : Status
  pub step_states : Map String StepState

unfoldable pub initial_machine : StateMachine
initial_machine = record { current_status = Status.pending; step_states = [] }

unfoldable pub can_transition : StateMachine → Status → Bool
can_transition m to = includes (valid_execution_transitions m.current_status) to

unfoldable pub transition : StateMachine → Status → Result ExecutionError StateMachine
transition m to =
    if not (includes (valid_execution_transitions m.current_status) to)
    then err (invalid_transition m.current_status to)
    else ok (record m { current_status = to })

or_pending : Option StepState → StepState
or_pending none = StepState.pending
or_pending (some s) = s

unfoldable pub get_step_state : StateMachine → String → StepState
unfolding or_pending
get_step_state m step_id = or_pending (get m.step_states step_id)

unfoldable pub set_step_state :
    StateMachine → String → StepState → Result ExecutionError StateMachine
unfolding get_step_state
set_step_state m step_id state =
    let current = get_step_state m step_id in
    if not (includes (valid_step_transitions current) state)
    then err (invalid_step_transition current state)
    else ok (record m { step_states = put m.step_states step_id state })

unfoldable pub can_step_transition : StateMachine → String → StepState → Bool
unfolding get_step_state
can_step_transition m step_id to = includes (valid_step_transitions (get_step_state m step_id)) to

-- `isTerminalStatus`
unfoldable pub is_terminal_status : Status → Bool
unfolding ExecutionStatus-discrete
is_terminal_status s = s == Status.completed || s == Status.cancelled || s == Status.failed

unfoldable pub is_terminal : StateMachine → Bool
unfolding ExecutionStatus-discrete
is_terminal m =
    m.current_status == Status.completed
    || m.current_status == Status.cancelled
    || m.current_status == Status.failed

unfoldable pub can_cancel : StateMachine → Bool
unfolding ExecutionStatus-discrete
can_cancel m =
    not (m.current_status == Status.completed)
    && not (m.current_status == Status.cancelled)
    && not (m.current_status == Status.failed)

unfoldable pub can_pause : StateMachine → Bool
unfolding ExecutionStatus-discrete
can_pause m = m.current_status == Status.running

unfoldable pub can_resume : StateMachine → Bool
unfolding ExecutionStatus-discrete
can_resume m = m.current_status == Status.paused

unfoldable pub reset : StateMachine → StateMachine
reset m = record { current_status = Status.pending; step_states = [] }
