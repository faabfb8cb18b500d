-- ===== src/Execution/State/Tests.antt =====
-- The theorems about the state machine at concrete machines.
use agent_os.Base.{[], ◌∷◌, true, ◌≡◌, refl, ok, string_eq}
use agent_os.Base.Map.{get, put}
use agent_os.Execution.Types.{
  ExecutionStatus as Status, ExecutionStepState as StepState, ExecutionStepState-discrete,
}
use agent_os.Execution.State.{
  StateMachine, valid_step_transitions, set_step_state, is_terminal, can_cancel, can_transition,
}
use agent_os.Execution.State.Laws.{guards_table}

abbrev stopped : StateMachine
stopped = record { current_status = Status.cancelled; step_states = ("a", StepState.running) ∷ [] }

abbrev moved : StateMachine
moved = record { current_status = Status.cancelled; step_states = ("a", StepState.failed) ∷ [] }

stopped-is_terminal : is_terminal stopped ≡ true
unfolding is_terminal
stopped-is_terminal = refl

-- What the runs below compute with.
program : Unit {0}
unfolding get put set_step_state valid_step_transitions ExecutionStepState-discrete
program = tt

moves : set_step_state stopped "a" StepState.failed ≡ ok moved
unfolding program
moves = refl

guards_table_example : can_cancel stopped ≡ can_transition stopped Status.cancelled
guards_table_example = (guards_table stopped).0
