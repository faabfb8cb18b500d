-- ===== src/Execution/Loop/Success.antt =====
-- A run whose executor succeeds at every step.
pub mod Rules
pub mod Rounds
pub mod Whole
mod Tests
use Rules.{
  Seen, seen_in, seen, Runs, >>=-Runs, >>-Runs, gets-Runs, then-Runs, else-Runs, pure-Runs,
  modify-Runs, modify_history-Runs, emit-Runs,
}
use agent_os.Base.{
  Distinct, ℕ, zero, suc, ◌+◌, ◌<◌, String, string_eq, Bool, true, false, not, List, [], ◌∷◌, ◌++◌,
  Option, none, some, ◌≡◌, ◌≢◌, refl, ◌∙◌, sym, ap, subst, if◌then◌else◌, ◌==◌, length, get_elem?,
  ltb, includes, arith, length-append, beq_refl,
}
use agent_os.Base.Map.{Map, get, put, get-put}
use agent_os.Planning.Types.{PlanStep, PlanResult}
use agent_os.Planning.Validator.{ids_of}
use agent_os.Execution.Types.{
  ExecutionStatus as Status, ExecutionStepState as StepState, ExecutionStatus-discrete,
  ExecutionStepState-discrete, status_eq, step_state_eq, ExecutionStepResult,
}
use agent_os.Execution.State.{get_step_state, set_step_state, valid_step_transitions}
use agent_os.Execution.Context.{
  Context, get_current_step, next_step, add_step_result, add_checkpoint,
}
use agent_os.Execution.Loop.Monad.{
  Reply, Executed, result, Env, World, return, Exec, ◌>>=◌, ◌>>◌, pure, gets, modify, emit,
  set_step,
}
use agent_os.Execution.Loop.Quiet.Steps.{next_step-some, iterate-run_current}
use agent_os.Execution.Loop.{
  perform_all, await_reply, call_executor, execute_step, take_checkpoint, step_succeeded, run_step,
  check_pause, run_current, iterate, run_rounds,
}

-- The executor succeeds at every call, and no caller does anything meanwhile.
pub record Succeeds (env : Env) : Type 0 where
  pub quiet : (n : ℕ) (step : PlanStep) → (env.executor n step).controls ≡ []
  pub results : ℕ → PlanStep → ExecutionStepResult
  pub answers : (n : ℕ) (step : PlanStep) → (env.executor n step).answer ≡ result (results n step)
  pub succeeds : (n : ℕ) (step : PlanStep) → (results n step).success ≡ true

abbrev pub with_step : String → StepState → Seen → Seen
with_step id state s = record s {
  machine = record s.machine { step_states = put s.machine.step_states id state };
}

abbrev pub called : String → Seen → Seen
called id s = record s { calls = s.calls ++ id ∷ [] }

abbrev pub moved : Seen → Seen
moved s = record s { index = s.index + 1 }

set_step_allowed :
    (id : String) (state : StepState) (w : World)
    → includes (valid_step_transitions (get_step_state w.context.machine id)) state ≡ true
    → set_step id state w ≡ (
      return tt,
      record w {
        context = record w.context {
          machine = record w.context.machine {
            step_states = put w.context.machine.step_states id state;
          };
        };
      },
    )
unfolding set_step set_step_state
set_step_allowed id state w h = rw h

set_step-Runs :
    (s : Seen) (id : String) (state : StepState)
    → includes (valid_step_transitions (get_step_state s.machine id)) state ≡ true
    → Runs s (set_step id state) tt (with_step id state s)
set_step-Runs s id state h = record {
  value = λ w e. rw (set_step_allowed id state w (rw (ap (λ (x : Seen). x.machine) e) h)) refl;
  after = λ w e.
      rw (set_step_allowed id state w (rw (ap (λ (x : Seen). x.machine) e) h))
        (ap (with_step id state) e);
}

if-Runs :
    {s : Seen} {A : Type 0} (b : Bool) {m k : Exec A} {a : A} {t : Seen}
    → Runs s m a t
    → Runs s k a t
    → Runs s (if b then m else k) a t
if-Runs true hm hk = hm
if-Runs false hm hk = hk

add_step_result-Runs :
    (s : Seen) (r : ExecutionStepResult) → Runs s (modify (add_step_result r)) tt s
unfolding add_step_result
add_step_result-Runs s r = modify-Runs _ (λ c calls. refl)

take_checkpoint-Runs : (s : Seen) (id : String) → Runs s (take_checkpoint id) tt s
unfolding take_checkpoint add_checkpoint ◌>>=◌ ◌>>◌ gets modify emit
take_checkpoint-Runs s id = record { value = λ w e. refl; after = λ w e. e }

pub get_step_state-put :
    (s : Seen) (id : String) (state : StepState) (other : String)
    → get_step_state (with_step id state s).machine other
      ≡ (if id == other then state else get_step_state s.machine other)
unfolding get_step_state
get_step_state-put s id state other = ground (arith, get-put s.machine.step_states id state other)

is_not_running :
    (w : World) (s : Seen) (id : String)
    → seen w ≡ s
    → get_step_state s.machine id ≡ StepState.pending
    → not (get_step_state w.context.machine id == StepState.running) ≡ true
unfolding ExecutionStepState-discrete
is_not_running w s id e p = rw (ap (λ (x : Seen). x.machine) e) (rw p refl)

-- What a step that succeeds leaves.
abbrev pub stepped : String → Seen → Seen
stepped id s =
    moved (with_step id StepState.completed (called id (with_step id StepState.running s)))

module _ (plan : PlanResult) where
  move-Runs : (s : Seen) → s.plan ≡ some plan → Runs s (modify (λ c. (next_step c).0)) tt (moved s)
  unfolding modify
  move-Runs s h = record {
    value = λ w e. refl;
    after =
        λ w e. rw (next_step-some plan w.context (ap (λ (x : Seen). x.plan) e ∙ h)) (ap moved e);
  }

  has_more :
      (w : World) (s : Seen)
      → seen w ≡ s
      → s.plan ≡ some plan
      → (next_step w.context).1 ≡ ltb (s.index + 1) (length plan.steps)
  has_more w s e h =
      rw (next_step-some plan w.context (ap (λ (x : Seen). x.plan) e ∙ h))
        (ap (λ (x : Seen). ltb (x.index + 1) (length plan.steps)) e)

  step_succeeded-Runs :
      (s : Seen) (step : PlanStep) (r : ExecutionStepResult)
      → s.plan ≡ some plan
      → get_step_state s.machine step.id ≡ StepState.running
      → Runs s
          (step_succeeded step r)
          (ltb (s.index + 1) (length plan.steps))
          (moved (with_step step.id StepState.completed s))
  unfolding step_succeeded valid_step_transitions ExecutionStepState-discrete
  step_succeeded-Runs s step r planned running =
      >>-Runs (set_step-Runs s step.id StepState.completed (rw running refl)) (
        >>-Runs (emit-Runs _) (
          >>-Runs (emit-Runs _) (
            gets-Runs _ _
              λ w e. >>-Runs (move-Runs _ planned) (rw (has_more w _ e planned) (pure-Runs _)))))

-- A round begins with the step at the index.
pub iterate_current :
    (env : Env) (plan : PlanResult) (s : Seen) (o : Option PlanStep) (w : World)
    → seen w ≡ s
    → s.plan ≡ some plan
    → s.aborted ≡ false
    → s.machine.current_status ≡ Status.running
    → get_elem? plan.steps s.index ≡ o
    → iterate env w ≡ run_current env o w
unfolding get_current_step
iterate_current env plan s o w e planned unaborted running current =
    let planned_in = ap (λ (x : Seen). x.plan) e ∙ planned in
    rw
      (
        iterate-run_current env w (ap (λ (x : Seen). x.aborted) e ∙ unaborted)
            (ap (λ (x : Seen). x.machine.current_status) e ∙ running),
        planned_in,
        ap (λ (x : Seen). get_elem? plan.steps x.index) e ∙ current,
      )
      refl

module _ (env : Env) (ok : Succeeds env) where
  call_executor-Runs :
      (s : Seen) (step : PlanStep)
      → Runs s
          (call_executor env step)
          (result (ok.results (length s.calls) step))
          (called step.id s)
  unfolding call_executor await_reply perform_all
  call_executor-Runs s step = record {
    value = λ w e.
        let same = ap (λ (x : Seen). x.calls) e in
        rw (ok.answers (length w.calls) step) (rw same refl);
    after = λ w e. rw (ok.quiet (length w.calls) step) (ap (called step.id) e);
  }

  execute_step-Runs :
      (s : Seen) (step : PlanStep)
      → get_step_state s.machine step.id ≡ StepState.pending
      → Runs s
          (execute_step env step)
          (ok.results (length s.calls) step)
          (called step.id (with_step step.id StepState.running s))
  unfolding execute_step valid_step_transitions ExecutionStepState-discrete
  execute_step-Runs s step p = gets-Runs _ _ λ w e.
      >>-Runs
        (then-Runs _ (is_not_running w s step.id e p)
          (set_step-Runs s step.id StepState.running (rw p refl)))
        (>>-Runs (emit-Runs _)
          (>>=-Runs _ (call_executor-Runs _ step) (gets-Runs _ _ (λ w e. pure-Runs _))))

  module _ (plan : PlanResult) (s : Seen) (planned : s.plan ≡ some plan) (step : PlanStep)
      (pending : get_step_state s.machine step.id ≡ StepState.pending) where
    run_step-Runs :
        Runs s (run_step env step) (ltb (s.index + 1) (length plan.steps)) (stepped step.id s)
    unfolding run_step
    run_step-Runs = >>=-Runs _ (execute_step-Runs s step pending) (
        >>-Runs (add_step_result-Runs _ _) (
          >>-Runs (modify_history-Runs _) (
            gets-Runs _ _ λ w e.
              >>-Runs
                (if-Runs w.context.policy.enable_checkpoints (take_checkpoint-Runs _ step.id)
                  (pure-Runs tt))
                (then-Runs _ (ok.succeeds (length s.calls) step) (
                  step_succeeded-Runs plan _ step _ planned (
                    get_step_state-put s step.id StepState.running step.id
                    ∙ rw (beq_refl step.id) refl))))))

    pub iterate-Runs :
        s.aborted ≡ false
        → s.machine.current_status ≡ Status.running
        → get_elem? plan.steps s.index ≡ some step
        → Runs s (iterate env) (ltb (s.index + 1) (length plan.steps)) (stepped step.id s)
    unfolding run_current
    iterate-Runs unaborted running current = record {
      value = λ w e.
          rw (iterate_current env plan s (some step) w e planned unaborted running current)
            (run_step-Runs.value w e);
      after = λ w e.
          rw (iterate_current env plan s (some step) w e planned unaborted running current)
            (run_step-Runs.after w e);
    }
