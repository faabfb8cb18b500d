-- ===== src/Execution/State/Laws.antt =====
-- What the state machine promises: its guards agree with its table, terminal statuses and finished
-- steps are final, and steps do not disturb one another.
use agent_os.Base.{
  String, true, false, not, List, [], ◌∷◌, ◌≡◌, refl, ◌∙◌, ◌==◌, if◌then◌else◌, Result, ok, err,
  arith, string_eq,
}
use agent_os.Base.Map.{get-put}
use agent_os.Execution.Types.{
  ExecutionStatus as Status, ExecutionStepState as StepState, ExecutionStatus-discrete, status_eq,
  ExecutionError,
}
use agent_os.Execution.State.{
  StateMachine, valid_execution_transitions, transition, can_transition, get_step_state,
  set_step_state, can_step_transition, is_terminal, can_cancel, can_pause, can_resume,
}

-- The guards agree with the transition table: an execution can be cancelled, or paused, exactly
-- when the table lets it go there; what can be resumed can go back to running; and a machine is
-- terminal exactly when it cannot be cancelled, which is when the table refuses every status.
pub guards_table :
    (m : StateMachine)
    → (can_cancel m ≡ can_transition m Status.cancelled)
      × (can_pause m ≡ can_transition m Status.paused)
      × (can_resume m ≡ true → can_transition m Status.running ≡ true)
      × (is_terminal m ≡ not (can_cancel m))
      × ((to : Status) → is_terminal m ≡ true → can_transition m to ≡ false)
unfolding can_cancel can_pause can_resume can_transition is_terminal valid_execution_transitions
guards_table m = (ground arith, ground arith, λ h. ground arith, ground arith, λ to h. ground arith)

-- The operations that a client may call on a machine, short of a reset.
pub data Op : Type 0 where
  to_status : Status → Op
  to_step : String → StepState → Op

abbrev pub settle : StateMachine → Result ExecutionError StateMachine → StateMachine
settle m (ok m') = m'
settle m (err e) = m

-- A refused call throws, and leaves the machine as it was.
abbrev pub apply : StateMachine → Op → StateMachine
apply m (to_status s) = settle m (transition m s)
apply m (to_step id s) = settle m (set_step_state m id s)

pub apply_all : StateMachine → List Op → StateMachine
apply_all m [] = m
apply_all m (op ∷ ops) = apply_all (apply m op) ops

apply-is_terminal :
    (m : StateMachine) (op : Op)
    → is_terminal m ≡ true
    → (apply m op).current_status ≡ m.current_status
unfolding is_terminal transition set_step_state valid_execution_transitions ExecutionStatus-discrete
apply-is_terminal m (to_status s) h = ground arith
apply-is_terminal m (to_step id s) h = ground arith

is_terminal_cong :
    (m n : StateMachine) → m.current_status ≡ n.current_status → is_terminal m ≡ is_terminal n
unfolding is_terminal
is_terminal_cong m n e = rw e

-- Once a machine is terminal, no sequence of transitions and step updates changes its status.
pub apply_all-is_terminal :
    (m : StateMachine) (ops : List Op)
    → is_terminal m ≡ true
    → (apply_all m ops).current_status ≡ m.current_status
unfolding apply_all
apply_all-is_terminal m [] h = refl
apply_all-is_terminal m (op ∷ ops) h =
    let same = apply-is_terminal m op h in
    apply_all-is_terminal (apply m op) ops (is_terminal_cong (apply m op) m same ∙ h) ∙ same

-- A step update moves that step alone, along the table, and leaves the status; a refused one is
-- reported with the state that the step is in.
pub set_step_state_frame :
    (m m' : StateMachine) (id : String) (s : StepState)
    → set_step_state m id s ≡ ok m'
    → (can_step_transition m id s ≡ true)
      × (m'.current_status ≡ m.current_status)
      × ((j : String) → get_step_state m' j ≡ (if id == j then s else get_step_state m j))
unfolding set_step_state can_step_transition
set_step_state_frame m m' id s h =
    (ground arith, ground arith, λ j. ground (arith, get-put m.step_states id s j))
