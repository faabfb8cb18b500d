-- ===== src/Execution/Loop/Quiet.antt =====
-- A run that nobody interferes with.
pub mod Rules
pub mod Rounds
pub mod Steps
pub mod Ends
use Rules.{
  Course, course, course_in, Settled, Calm, >>=-Calm, >>-Calm, pure-Calm, gets-Calm, if-Calm,
  modify-Calm, modify_history-Calm, emit-Calm, set_step-Calm, await_reply-Calm, calm,
}
use agent_os.Base.{
  ℕ, zero, suc, ◌+◌, ◌-◌, ◌*◌, ◌≤◌, ◌<◌, ◌++◌, String, string_eq, Bool, true, false, List, [], ◌∷◌,
  Option, none, some, ◌≡◌, refl, ◌∙◌, sym, ap, subst, if◌then◌else◌, if-elim, ◌==◌, length,
  get_elem?, ltb, leb, arith, Result, ok, err,
}
use agent_os.Planning.Types.{PlanStep, PlanResult}
use agent_os.Execution.Types.{
  ExecutionStatus as Status, ExecutionStepState as StepState, ExecutionStatus-discrete, status_eq,
  ExecutionStepResult, ExecutionError,
}
use agent_os.Execution.Retry.{RetryManager, attempts_of, record_attempt}
use agent_os.Execution.Retry.Budget.{record_attempt_counts}
use agent_os.Execution.Context.{
  Context, get_current_step, next_step, add_step_result, add_checkpoint,
}
use agent_os.Execution.Loop.Monad.{
  Reply, Executed, Env, World, Outcome, return, throw, blocked, out_of_fuel, Exec, and_then, handle,
  ◌>>=◌, ◌>>◌, pure, raise, gets, try_catch, modify, modify_history, emit, set_status, set_step,
}
use agent_os.Execution.Loop.{
  await_reply, sleep, call_executor, execute_step, take_checkpoint, step_succeeded, retry_step,
  replan_with, step_failed, run_step, check_pause, run_current, iterate, run_rounds,
  is_cancelled_error,
}

-- No caller does anything while the loop waits, and there is no replan callback.
pub record IsQuiet (env : Env) : Type 0 where
  pub executor_quiet : (n : ℕ) (step : PlanStep) → (env.executor n step).controls ≡ []
  pub sleeping_quiet : (n ms : ℕ) → (env.sleeping n ms).controls ≡ []
  pub no_replan : env.replan_callback ≡ none

module _ (env : Env) (quiet : IsQuiet env) where
  call_executor-Calm : (step : PlanStep) → Calm (call_executor env step)
  unfolding call_executor
  call_executor-Calm step = record {
    same = λ w.
        (await_reply-Calm _ (quiet.executor_quiet (length w.calls) step)).same
          (record w { calls = w.calls ++ step.id ∷ [] });
    settled = λ w.
        (await_reply-Calm _ (quiet.executor_quiet (length w.calls) step)).settled
          (record w { calls = w.calls ++ step.id ∷ [] });
  }

  pub execute_step-Calm : (step : PlanStep) → Calm (execute_step env step)
  unfolding execute_step
  execute_step-Calm step = search (calm, call_executor-Calm) depth 12

  pub sleep-Calm : (ms : ℕ) → Calm (sleep env ms)
  unfolding sleep
  sleep-Calm ms = record {
    same = λ w.
        if-elim (λ (r : Outcome (Unit {0}) × World). course r.1 ≡ course w) w.context.aborted refl
          ((await_reply-Calm _ (quiet.sleeping_quiet w.sleeps ms)).same
            (record w { sleeps = w.sleeps + 1 }));
    settled = λ w.
        if-elim (λ (r : Outcome (Unit {0}) × World). Settled r.0) w.context.aborted tt
          ((await_reply-Calm _ (quiet.sleeping_quiet w.sleeps ms)).settled
            (record w { sleeps = w.sleeps + 1 }));
  }

take_checkpoint-Calm : (id : String) → Calm (take_checkpoint id)
unfolding take_checkpoint add_checkpoint ◌>>=◌ ◌>>◌ gets modify emit
take_checkpoint-Calm id = record { same = λ w. refl; settled = λ w. tt }

pub add_step_result-Calm : (r : ExecutionStepResult) → Calm (modify (add_step_result r))
unfolding add_step_result
add_step_result-Calm r = modify-Calm _ (λ c. refl)
