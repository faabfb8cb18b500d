-- ===== src/Execution/Loop/Controls.antt =====
-- The operations of ExecutionLoop.ts, packages/hermes/src/execution, that callers use on a run, and
-- its waits, during which they do.
use agent_os.Execution.Loop.Monad.{
  Control, pause, resume, abort, cancel, Reply, Env, World, return, blocked, Exec, ◌>>=◌, ◌>>◌,
  pure, gets, modify, modify_history, emit, set_status,
}
use agent_os.Base.{ℕ, ◌+◌, String, string_eq, true, List, [], ◌∷◌, some, ◌==◌, if◌then◌else◌}
use agent_os.Execution.Types.{ExecutionStatus as Status, status_eq, step_state_eq, text}
use agent_os.Execution.State.{can_pause, can_resume, can_cancel}
use agent_os.Execution.History.{complete_history}
use agent_os.Execution.Context.{get_steps_completed}
use agent_os.Execution.Events.{ExecutionEvent, execution_paused, execution_resumed}

unfoldable pub pause_execution : Exec (Unit {0})
pause_execution = do
  w ← gets (λ w. w)
  if can_pause w.context.machine
      then (set_status Status.paused >> emit (λ _. execution_paused))
      else pure tt

unfoldable pub resume_execution : Exec (Unit {0})
resume_execution = do
  w ← gets (λ w. w)
  if can_resume w.context.machine
      then (set_status Status.running >> emit (λ _. execution_resumed))
      else pure tt

unfoldable pub cancel_execution : String → Exec (Unit {0})
cancel_execution reason = do
  w ← gets (λ w. w)
  if can_cancel w.context.machine
      then (do
        set_status Status.cancelled
        emit (λ c. ExecutionEvent.execution_cancelled (text reason) (get_steps_completed c))
        modify_history
            (λ c. complete_history c.now Status.cancelled (some (text reason)) c.history))
      else pure tt

abbrev pub perform : Control → Exec (Unit {0})
perform pause = pause_execution
perform resume = resume_execution
perform abort = modify (λ c. record c { aborted = true })
perform (cancel reason) = cancel_execution reason

-- A throw of a method goes to its own caller.
unfoldable pub perform_all : List Control → World → World
perform_all [] w = w
perform_all (k ∷ ks) w = perform_all ks (perform k w).1

-- What callers do while the loop waits for a reply; then the clock has moved on.
unfoldable pub await_reply : {A : Type 0} → Reply A → Exec A
await_reply r w =
    let w' = perform_all r.controls w in
    (return r.answer, record w' { context = record w'.context { now = r.clock } })

-- `waitForResume`
unfoldable pub wait_for_resume : Env → Exec (Unit {0})
wait_for_resume env w =
    let (o, w') = await_reply (env.resuming w.waits) (record w { waits = w.waits + 1 }) in
    if w'.context.machine.current_status == Status.paused then (blocked, w') else (o, w')

-- `sleep`: an abort signal that is up already ends it at once.
unfoldable pub sleep : Env → ℕ → Exec (Unit {0})
sleep env ms w =
    if w.context.aborted
    then (return tt, w)
    else await_reply (env.sleeping w.sleeps ms) (record w { sleeps = w.sleeps + 1 })
