-- ===== src/Execution/Loop/Final.antt =====
-- Terminal statuses are final for the whole loop, whatever the environment does.
mod Rules
pub use Rules.{status_of}
use Rules.{
  Sticks, SameStatus, >>=-Sticks, try_catch-Sticks, pure-Sticks, raise-Sticks, gets-Sticks,
  if-Sticks, modify-Sticks, modify_history-Sticks, emit-Sticks, set_status-Sticks, set_step-Sticks,
  sticks, >>-Sticks,
}
use agent_os.Base.{
  ℕ, zero, suc, ◌+◌, ◌++◌, String, Bool, true, false, List, [], ◌∷◌, Option, none, some, ◌≡◌, refl,
  ◌∙◌, sym, Result, ok, err, if◌then◌else◌, ◌==◌, arith,
}
use agent_os.Planning.Types.{PlanStep, PlanResult}
use agent_os.Execution.Types.{
  ExecutionStatus as Status, ExecutionStepState as StepState, ExecutionStatus-discrete, status_eq,
  ExecutionStepResult, ExecutionError, ExecutionCheckpoint,
}
use agent_os.Execution.State.{
  StateMachine, is_terminal, is_terminal_status, transition, set_step_state,
  valid_execution_transitions,
}
use agent_os.Execution.History.{History}
use agent_os.Execution.Retry.{record_attempt}
use agent_os.Execution.Context.{
  Context, start, set_plan, next_step, add_step_result, add_checkpoint, get_current_step,
}
use agent_os.Execution.Events.{ExecutionEvent}
use agent_os.Execution.Loop.Monad.{
  Control, pause, resume, abort, cancel, Reply, Executed, Env, World, Outcome, return, throw,
  blocked, out_of_fuel, Exec, and_then, handle, ◌>>=◌, ◌>>◌, pure, raise, gets, try_catch, modify,
  modify_history, emit, set_status, set_step,
}
use agent_os.Execution.Loop.{
  pause_execution, resume_execution, cancel_execution, perform, perform_all, await_reply,
  wait_for_resume, sleep, call_executor, execute_step, take_checkpoint, step_succeeded, retry_step,
  adopt_plan, ask, replan_with, step_failed, run_step, check_pause, run_current, iterate,
  run_rounds, finish, handle_cancelled, handle_failed, handle_error, run_plan, execute_plan,
  execute,
}

pause-Sticks : Sticks pause_execution
unfolding pause_execution
pause-Sticks = search sticks depth 12

resume-Sticks : Sticks resume_execution
unfolding resume_execution
resume-Sticks = search sticks depth 12

cancel-Sticks : (reason : String) → Sticks (cancel_execution reason)
unfolding cancel_execution
cancel-Sticks reason = search sticks depth 12

perform-Sticks : (k : Control) → Sticks (perform k)
perform-Sticks pause = pause-Sticks
perform-Sticks resume = resume-Sticks
perform-Sticks abort = modify-Sticks _ (λ c. refl)
perform-Sticks (cancel reason) = cancel-Sticks reason

perform_all-status :
    (ks : List Control) (w : World)
    → is_terminal_status (status_of w) ≡ true
    → status_of (perform_all ks w) ≡ status_of w
unfolding perform_all
perform_all-status [] w h = refl
perform_all-status (k ∷ ks) w h =
    let e = (perform-Sticks k).at w h in perform_all-status ks (perform k w).1 (rw e h) ∙ e

await_reply-Sticks : {A : Type 0} (r : Reply A) → Sticks (await_reply r)
unfolding await_reply
await_reply-Sticks r = record { at = λ w h. perform_all-status r.controls w h }

wait_for_resume-Sticks : (env : Env) → Sticks (wait_for_resume env)
unfolding wait_for_resume await_reply
wait_for_resume-Sticks env = record {
  at = λ w h. ground (
    arith,
    perform_all-status (env.resuming w.waits).controls (record w { waits = w.waits + 1 }) h,
  );
}

sleep-Sticks : (env : Env) (ms : ℕ) → Sticks (sleep env ms)
unfolding sleep await_reply
sleep-Sticks env ms = record {
  at = λ w h. ground (
    arith,
    perform_all-status (env.sleeping w.sleeps ms).controls (record w { sleeps = w.sleeps + 1 }) h,
  );
}

call_executor-Sticks : (env : Env) (step : PlanStep) → Sticks (call_executor env step)
unfolding call_executor
call_executor-Sticks env step = record {
  at = λ w h. (await_reply-Sticks _).at (record w { calls = w.calls ++ step.id ∷ [] }) h;
}

execute_step-Sticks : (env : Env) (step : PlanStep) → Sticks (execute_step env step)
unfolding execute_step
execute_step-Sticks env step = search (sticks, call_executor-Sticks) depth 12

take_checkpoint-Sticks : (id : String) → Sticks (take_checkpoint id)
unfolding take_checkpoint add_checkpoint ◌>>=◌ ◌>>◌ gets modify emit
take_checkpoint-Sticks id = record { at = λ w h. refl }

next_step-Sticks : Sticks (modify (λ c. (next_step c).0))
unfolding next_step
next_step-Sticks = modify-Sticks (λ c. (next_step c).0) (λ c. ground arith)

step_succeeded-Sticks : (step : PlanStep) (r : ExecutionStepResult) → Sticks (step_succeeded step r)
unfolding step_succeeded
step_succeeded-Sticks step r = search (sticks, next_step-Sticks) depth 12

count_attempt-Sticks :
    (id : String)
    → Sticks (modify (λ c. record c { retry_manager = (record_attempt c.retry_manager id).0 }))
count_attempt-Sticks id = modify-Sticks _ (λ c. refl)

retry_step-Sticks : (env : Env) (step : PlanStep) → Sticks (retry_step env step)
unfolding retry_step
retry_step-Sticks env step = search (sticks, sleep-Sticks, count_attempt-Sticks) depth 16

set_plan-Sticks : (plan : PlanResult) → Sticks (modify (set_plan plan))
unfolding set_plan
set_plan-Sticks plan = modify-Sticks (set_plan plan) (λ c. ground arith)

adopt_plan-Sticks : (p : Option PlanResult) → Sticks (adopt_plan p)
unfolding adopt_plan
adopt_plan-Sticks none = search sticks
adopt_plan-Sticks (some plan) = search (sticks, set_plan-Sticks) depth 12

ask-Sticks : (callback : ℕ → Reply (Option PlanResult)) → Sticks (ask callback)
unfolding ask
ask-Sticks callback = record {
  at = λ w h. (await_reply-Sticks (callback w.replans)).at (record w { replans = w.replans + 1 }) h;
}

replan_with-Sticks :
    (callback : Option (ℕ → Reply (Option PlanResult))) (step : PlanStep) (r : ExecutionStepResult)
    → Sticks (replan_with callback step r)
unfolding replan_with
replan_with-Sticks none step r = search sticks
replan_with-Sticks (some callback) step r = search (sticks, adopt_plan-Sticks, ask-Sticks) depth 12

step_failed-Sticks :
    (env : Env) (step : PlanStep) (r : ExecutionStepResult) → Sticks (step_failed env step r)
unfolding step_failed
step_failed-Sticks env step r = search (sticks, retry_step-Sticks, replan_with-Sticks) depth 12

add_step_result-Sticks : (r : ExecutionStepResult) → Sticks (modify (add_step_result r))
unfolding add_step_result
add_step_result-Sticks r = modify-Sticks _ (λ c. refl)

run_step-Sticks : (env : Env) (step : PlanStep) → Sticks (run_step env step)
unfolding run_step
run_step-Sticks env step =
    search
      (
        sticks, execute_step-Sticks, add_step_result-Sticks, take_checkpoint-Sticks,
        step_succeeded-Sticks, step_failed-Sticks,
      )
      depth 16

check_pause-Sticks : (env : Env) → Sticks (check_pause env)
unfolding check_pause
check_pause-Sticks env = search (sticks, wait_for_resume-Sticks) depth 12

run_current-Sticks : (env : Env) (s : Option PlanStep) → Sticks (run_current env s)
unfolding run_current
run_current-Sticks env none = search sticks
run_current-Sticks env (some step) = run_step-Sticks env step

iterate-Sticks : (env : Env) → Sticks (iterate env)
unfolding iterate
iterate-Sticks env = search (sticks, check_pause-Sticks, run_current-Sticks) depth 12

run_rounds-Sticks : (env : Env) (fuel : ℕ) → Sticks (run_rounds env fuel)
unfolding run_rounds
run_rounds-Sticks env zero = record { at = λ w h. refl }
run_rounds-Sticks env (suc fuel) =
    >>=-Sticks (iterate-Sticks env)
      λ more. if-Sticks more (run_rounds-Sticks env fuel) (pure-Sticks tt)

finish-Sticks : Sticks finish
unfolding finish
finish-Sticks = search sticks depth 14

handle_error-Sticks : (e : ExecutionError) → Sticks (handle_error e)
unfolding handle_error
handle_error-Sticks e = search sticks depth 16

run_plan-Sticks : (env : Env) (fuel : ℕ) → Sticks (run_plan env fuel)
unfolding run_plan
run_plan-Sticks env fuel =
    search (sticks, run_rounds-Sticks, finish-Sticks, handle_error-Sticks) depth 12

-- While the loop runs a plan, a terminal status is final: whatever the executor and the replan
-- callback answer, whatever callers do while the loop waits, and whether the run returns, throws
-- or goes on, an execution that is completed, cancelled or failed stays so.
pub run_plan-is_terminal :
    (env : Env) (fuel : ℕ) (w : World)
    → is_terminal_status (status_of w) ≡ true
    → status_of (run_plan env fuel w).1 ≡ status_of w
run_plan-is_terminal env fuel = (run_plan-Sticks env fuel).at
