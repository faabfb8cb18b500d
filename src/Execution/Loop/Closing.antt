-- ===== src/Execution/Loop/Closing.antt =====
-- The end of `execute` in ExecutionLoop.ts, packages/hermes/src/execution: after the last round, and
-- in its `catch`.
use agent_os.Execution.Loop.Monad.{Exec, ◌>>=◌, ◌>>◌, pure, gets, modify_history, emit, set_status}
use agent_os.Base.{
  String, string_eq, Bool, true, false, not, ◌||◌, Option, none, some, ◌==◌, if◌then◌else◌,
}
use agent_os.Planning.Types.{PlanStep}
use agent_os.Execution.Types.{
  ExecutionStatus as Status, status_eq, step_state_eq, ExecutionError, execution_cancelled, Message,
  text, message_of,
}
use agent_os.Execution.History.{complete_history}
use agent_os.Execution.Context.{
  get_current_step, get_total_steps, get_duration_ms, get_total_retries, get_steps_completed,
}
use agent_os.Execution.Events.{ExecutionEvent, execution_completed}

-- What follows the `while` loop.
unfoldable pub finish : Exec (Unit {0})
finish = do
  w ← gets (λ w. w)
  if not (w.context.machine.current_status == Status.cancelled)
      then (do
        set_status Status.completed
        emit (λ c.
            execution_completed (get_duration_ms c) (get_steps_completed c) (get_total_steps c)
              (get_total_retries c))
        modify_history (λ c. complete_history c.now Status.completed none c.history))
      else pure tt

abbrev pub is_cancelled_error : ExecutionError → Bool
is_cancelled_error (execution_cancelled reason) = true
is_cancelled_error _ = false

abbrev pub failed_step_id : Option PlanStep → String
failed_step_id none = "unknown"
failed_step_id (some step) = step.id

unfoldable pub handle_cancelled : ExecutionError → Exec (Unit {0})
handle_cancelled error =
    let reason : Message =
      if is_cancelled_error error then message_of error else text "cancelled" in
    do
      w ← gets (λ w. w)
      if not (w.context.machine.current_status == Status.cancelled)
          then set_status Status.cancelled
          else pure tt
      emit (λ c. ExecutionEvent.execution_cancelled reason (get_steps_completed c))
      modify_history (λ c. complete_history c.now Status.cancelled (some reason) c.history)

unfoldable pub handle_failed : ExecutionError → Exec (Unit {0})
handle_failed error = do
  w ← gets (λ w. w)
  if not (w.context.machine.current_status == Status.failed)
      then set_status Status.failed
      else pure tt
  emit (λ c.
      ExecutionEvent.execution_failed (message_of error) (get_duration_ms c)
        (failed_step_id (get_current_step c)))
  modify_history (λ c. complete_history c.now Status.failed (some (message_of error)) c.history)

-- The `catch` of `execute`.
unfoldable pub handle_error : ExecutionError → Exec (Unit {0})
unfolding handle_cancelled handle_failed
handle_error error = do
  w ← gets (λ w. w)
  if is_cancelled_error error || w.context.machine.current_status == Status.cancelled
      then handle_cancelled error
      else handle_failed error
