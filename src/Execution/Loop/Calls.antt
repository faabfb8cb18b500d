-- ===== src/Execution/Loop/Calls.antt =====
-- For which steps the executor is called.
mod Rules
use Rules.{
  Fixes, calls->>=, >>=-Fixes, >>-Fixes, try_catch-Fixes, pure-Fixes, raise-Fixes, gets-Fixes,
  if-Fixes, modify-Fixes, modify_history-Fixes, emit-Fixes, set_status-Fixes, set_step-Fixes, fixes,
}
use agent_os.Base.{
  ℕ, ◌+◌, String, Bool, true, false, not, List, [], ◌∷◌, ◌++◌, Option, none, some, ◌≡◌, refl, ap,
  ◌∙◌, if◌then◌else◌, ◌==◌, length, arith,
}
use agent_os.Planning.Types.{PlanStep, PlanResult}
use agent_os.Execution.Types.{
  ExecutionStatus as Status, ExecutionStepState as StepState, ExecutionStatus-discrete,
  ExecutionStepState-discrete, status_eq, step_state_eq, ExecutionStepResult,
}
use agent_os.Execution.State.{get_step_state, set_step_state, valid_step_transitions}
use agent_os.Execution.Context.{get_current_step}
use agent_os.Execution.Loop.Monad.{
  Control, pause, resume, abort, cancel, Reply, Executed, Env, World, Outcome, return, Exec, ◌>>=◌,
  ◌>>◌, pure, gets, emit, set_step,
}
use agent_os.Execution.Loop.{
  pause_execution, resume_execution, cancel_execution, perform, perform_all, await_reply, sleep,
  call_executor, execute_step, take_checkpoint, step_succeeded, retry_step, adopt_plan, ask,
  replan_with, step_failed, run_step, check_pause, run_current, iterate,
}
use agent_os.Execution.Loop.Final.{status_of}

perform-Fixes : (k : Control) → Fixes (perform k)
unfolding pause_execution resume_execution cancel_execution
perform-Fixes pause = search fixes depth 12
perform-Fixes resume = search fixes depth 12
perform-Fixes abort = modify-Fixes _
perform-Fixes (cancel reason) = search fixes depth 12

calls-perform_all : (ks : List Control) (w : World) → (perform_all ks w).calls ≡ w.calls
unfolding perform_all
calls-perform_all [] w = refl
calls-perform_all (k ∷ ks) w = calls-perform_all ks (perform k w).1 ∙ (perform-Fixes k).at w

await_reply-Fixes : {A : Type 0} (r : Reply A) → Fixes (await_reply r)
unfolding await_reply
await_reply-Fixes r = record { at = λ w. calls-perform_all r.controls w }

sleep-Fixes : (env : Env) (ms : ℕ) → Fixes (sleep env ms)
unfolding sleep await_reply
sleep-Fixes env ms = record {
  at = λ w. ground (
    arith,
    calls-perform_all (env.sleeping w.sleeps ms).controls (record w { sleeps = w.sleeps + 1 }),
  );
}

ask-Fixes : (callback : ℕ → Reply (Option PlanResult)) → Fixes (ask callback)
unfolding ask
ask-Fixes callback = record {
  at = λ w. (await_reply-Fixes (callback w.replans)).at (record w { replans = w.replans + 1 });
}

adopt_plan-Fixes : (p : Option PlanResult) → Fixes (adopt_plan p)
unfolding adopt_plan
adopt_plan-Fixes none = search fixes
adopt_plan-Fixes (some plan) = search fixes depth 12

take_checkpoint-Fixes : (id : String) → Fixes (take_checkpoint id)
unfolding take_checkpoint
take_checkpoint-Fixes id = search fixes depth 12

step_succeeded-Fixes : (step : PlanStep) (r : ExecutionStepResult) → Fixes (step_succeeded step r)
unfolding step_succeeded
step_succeeded-Fixes step r = search fixes depth 12

retry_step-Fixes : (env : Env) (step : PlanStep) → Fixes (retry_step env step)
unfolding retry_step
retry_step-Fixes env step = search (fixes, sleep-Fixes) depth 16

replan_with-Fixes :
    (callback : Option (ℕ → Reply (Option PlanResult))) (step : PlanStep) (r : ExecutionStepResult)
    → Fixes (replan_with callback step r)
unfolding replan_with
replan_with-Fixes none step r = search fixes
replan_with-Fixes (some callback) step r = search (fixes, adopt_plan-Fixes, ask-Fixes) depth 12

step_failed-Fixes :
    (env : Env) (step : PlanStep) (r : ExecutionStepResult) → Fixes (step_failed env step r)
unfolding step_failed
step_failed-Fixes env step r = search (fixes, retry_step-Fixes, replan_with-Fixes) depth 12

set_step-return :
    (id : String) (w : World)
    → get_step_state w.context.machine id ≡ StepState.pending
    → (set_step id StepState.running w).0 ≡ return tt
unfolding set_step set_step_state valid_step_transitions ExecutionStepState-discrete
set_step-return id w h = ground arith

calls-execute_step :
    (env : Env) (step : PlanStep) (w : World)
    → get_step_state w.context.machine step.id ≡ StepState.pending
    → (execute_step env step w).1.calls ≡ w.calls ++ step.id ∷ []
unfolding execute_step call_executor await_reply ◌>>=◌ ◌>>◌ gets pure emit
    ExecutionStepState-discrete
calls-execute_step env step w h =
    rw (h, set_step-return step.id w h)
      (calls-perform_all _ _
        ∙ ap (λ calls. calls ++ step.id ∷ []) ((set_step-Fixes step.id StepState.running).at w))

calls-run_step :
    (env : Env) (step : PlanStep) (w : World)
    → (run_step env step w).1.calls ≡ (execute_step env step w).1.calls
unfolding run_step
calls-run_step env step w =
    calls->>= (execute_step env step) _ w
      λ r. search (fixes, take_checkpoint-Fixes, step_succeeded-Fixes, step_failed-Fixes) depth 14

iterate-cancelled :
    (env : Env) (w : World)
    → w.context.aborted ≡ false
    → status_of w ≡ Status.cancelled
    → iterate env w ≡ run_current env (get_current_step w.context) w
unfolding iterate check_pause ◌>>=◌ ◌>>◌ gets pure ExecutionStatus-discrete
iterate-cancelled env w a c = rw (a, c)

-- Cancelling does not stop the loop: in the next round of an execution that is cancelled, but whose
-- abort signal is down, the executor is called for the current step, if that step is pending.
pub calls-iterate_cancelled :
    (env : Env) (w : World) (step : PlanStep)
    → status_of w ≡ Status.cancelled
    → w.context.aborted ≡ false
    → get_current_step w.context ≡ some step
    → get_step_state w.context.machine step.id ≡ StepState.pending
    → (iterate env w).1.calls ≡ w.calls ++ step.id ∷ []
unfolding run_current
calls-iterate_cancelled env w step c a s p =
    rw (iterate-cancelled env w a c, s, run_current)
      (calls-run_step env step w ∙ calls-execute_step env step w p)
