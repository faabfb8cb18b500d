-- ===== src/Execution/Loop/Ending.antt =====
-- How a run ends when it is aborted, cancelled or paused.
use agent_os.Base.{ℕ, suc, string_eq, true, ◌≡◌, arith}
use agent_os.Execution.Types.{
  ExecutionStatus as Status, ExecutionStatus-discrete, status_eq, step_state_eq, invalid_transition,
}
use agent_os.Execution.State.{valid_execution_transitions, transition, can_transition}
use agent_os.Execution.Loop.Monad.{
  Env, World, return, throw, ◌>>=◌, ◌>>◌, pure, raise, gets, try_catch, modify, modify_history,
  emit, set_status,
}
use agent_os.Execution.Loop.Final.{status_of}
use agent_os.Execution.Loop.{iterate, run_rounds, finish, handle_error, run_plan}

-- What the small actions compute to.
actions : Unit {0}
unfolding ◌>>=◌ ◌>>◌ pure raise gets try_catch modify modify_history emit set_status
actions = tt

-- A run that meets the abort signal at the start of a round calls the executor no more: from a
-- status that can be cancelled it ends normally, with the execution cancelled.
pub run_plan_aborted :
    (env : Env) (fuel : ℕ) (w : World)
    → w.context.aborted ≡ true
    → can_transition w.context.machine Status.cancelled ≡ true
    → ((run_plan env (suc fuel) w).0 ≡ return tt)
      × (status_of (run_plan env (suc fuel) w).1 ≡ Status.cancelled)
      × ((run_plan env (suc fuel) w).1.calls ≡ w.calls)
unfolding run_plan run_rounds iterate handle_error actions transition can_transition
    ExecutionStatus-discrete
run_plan_aborted env fuel w a c = ground arith

-- When the rounds are over and the execution is paused, the run does not return: it throws the
-- error of the refused transition from paused to failed, and the execution stays paused.
pub run_plan_paused :
    (env : Env) (fuel : ℕ) (w w' : World)
    → run_rounds env fuel w ≡ (return tt, w')
    → status_of w' ≡ Status.paused
    → ((run_plan env fuel w).0 ≡ throw (invalid_transition Status.paused Status.failed))
      × (status_of (run_plan env fuel w).1 ≡ Status.paused)
unfolding run_plan finish handle_error actions transition ExecutionStatus-discrete
    valid_execution_transitions
run_plan_paused env fuel w w' r p = ground arith
