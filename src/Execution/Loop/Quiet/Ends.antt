-- ===== src/Execution/Loop/Quiet/Ends.antt =====
-- That a run which nobody interferes with ends, and how.
use agent_os.Base.{
  ℕ, zero, suc, ◌+◌, ◌-◌, ◌*◌, ◌≤◌, ◌<◌, ◌++◌, Bool, true, false, [], ◌∷◌, some, ◌≡◌, refl, ◌⊎◌,
  inl, inr, if◌then◌else◌, length, arith,
}
use agent_os.Planning.Types.{PlanResult}
use agent_os.Execution.Types.{ExecutionStatus as Status, ExecutionStatus-discrete, status_eq}
use agent_os.Execution.State.{valid_execution_transitions, transition, can_transition}
use agent_os.Execution.Context.{start}
use agent_os.Execution.Events.{execution_started}
use agent_os.Execution.Loop.Monad.{
  Env, World, Outcome, return, throw, blocked, out_of_fuel, and_then, handle, ◌>>=◌, ◌>>◌, pure,
  raise, gets, try_catch, modify, modify_history, emit, set_status,
}
use agent_os.Execution.Loop.{
  iterate, run_rounds, finish, handle_error, run_plan, execute, is_cancelled_error,
}
use agent_os.Execution.Loop.Final.{status_of}
use agent_os.Execution.Loop.Quiet.Rules.{Course, course}
use agent_os.Execution.Loop.Quiet.Rounds.{budget-suc, budget_mul, budget_mono, need, Steady, Round}
use agent_os.Execution.Loop.Quiet.Steps.{iterate-From}
use agent_os.Execution.Loop.Quiet.{IsQuiet}

-- The rounds are over, and the execution still runs.
abbrev Over : Outcome (Unit {0}) → World → Type 0
Over (return u) w = status_of w ≡ Status.running
Over (throw e) w = (status_of w ≡ Status.running) × (is_cancelled_error e ≡ false)
Over blocked w = ⊥
Over out_of_fuel w = ⊥

module _ (plan : PlanResult) (env : Env) (quiet : IsQuiet env) where
  after-Round :
      (n fuel : ℕ) (o : Outcome Bool) (w : World)
      → ((w : World)
          → Steady plan (course w)
          → need plan (course w) < fuel
          → Over (run_rounds env fuel w).0 (run_rounds env fuel w).1)
      → n ≤ fuel
      → Round plan n o (course w)
      → let r = and_then o (λ more. if more then run_rounds env fuel else pure tt) w in Over r.0 r.1
  unfolding Round pure
  after-Round n fuel (return true) w rest le h = rest w h.0 (omega (arith, h.1))
  after-Round n fuel (return false) w rest le h = h
  after-Round n fuel (throw e) w rest le h = h
  after-Round n fuel blocked w rest le h = h
  after-Round n fuel out_of_fuel w rest le h = h

  run_rounds-Over :
      (fuel : ℕ) (w : World)
      → Steady plan (course w)
      → need plan (course w) < fuel
      → Over (run_rounds env fuel w).0 (run_rounds env fuel w).1
  unfolding run_rounds ◌>>=◌
  run_rounds-Over zero w s lt = absurd (omega arith)
  run_rounds-Over (suc fuel) w s lt =
      after-Round (need plan (course w)) fuel (iterate env w).0 (iterate env w).1
        (run_rounds-Over fuel) (omega arith) ((iterate-From plan env quiet (course w) s).at w refl)

-- What follows the rounds.
unfoldable pub conclude : Outcome (Unit {0}) → World → Outcome (Unit {0}) × World
conclude o w = let (p, w') = and_then o (λ _. finish) w in handle p handle_error w'

conclude-Over :
    (o : Outcome (Unit {0})) (w : World)
    → Over o w
    → ((conclude o w).0 ≡ return tt)
      × ((status_of (conclude o w).1 ≡ Status.completed)
          ⊎ (status_of (conclude o w).1 ≡ Status.failed))
unfolding conclude finish handle_error ◌>>=◌ ◌>>◌ pure raise gets try_catch modify modify_history
    emit set_status transition ExecutionStatus-discrete valid_execution_transitions
conclude-Over (return u) w h = (ground arith, inl (ground arith))
conclude-Over (throw e) w h = (ground arith, inr (ground arith))
conclude-Over blocked w h = absurd h
conclude-Over out_of_fuel w h = absurd h

pub run_plan-conclude :
    (env : Env) (fuel : ℕ) (w : World)
    → run_plan env fuel w ≡ conclude (run_rounds env fuel w).0 (run_rounds env fuel w).1
unfolding run_plan conclude try_catch ◌>>◌ ◌>>=◌
run_plan-conclude env fuel w = refl

-- The world in which the rounds begin.
unfoldable pub begun : PlanResult → World → World
begun plan w =
    let c = start w.context in
    let c' = record c { machine = record c.machine { current_status = Status.running } } in
    record w {
      context = c';
      events = w.events ++ execution_started c'.goal (length plan.steps) ∷ [];
    }

pub execute-run_plan :
    (env : Env) (fuel : ℕ) (w : World) (plan : PlanResult)
    → w.context.plan ≡ some plan
    → can_transition w.context.machine Status.running ≡ true
    → execute env fuel w ≡ run_plan env fuel (begun plan w)
unfolding execute begun start can_transition transition ◌>>=◌ ◌>>◌ gets modify emit set_status
execute-run_plan env fuel w plan p t = rw (p, t)

begun-Steady :
    (plan : PlanResult) (w : World)
    → w.context.plan ≡ some plan
    → w.context.aborted ≡ false
    → Steady plan (course (begun plan w))
unfolding begun start
begun-Steady plan w p a = record { running = refl; unaborted = a; planned = p }

need-lt :
    (plan : PlanResult) (c : Course) (fuel : ℕ)
    → (length plan.steps + 1) * (c.retries.retry_policy.max_attempts + 1) ≤ fuel
    → need plan c < fuel
need-lt plan c fuel h =
    let m = c.retries.retry_policy.max_attempts in
    let steps = length plan.steps in
    let below = budget_mono (steps - c.index) steps m (omega arith) in
    let all = budget_mul (steps + 1) m in
    let next = budget-suc (steps + 1) steps m (omega arith) in omega (arith, below, all, next)

-- An execution that can start, that nobody pauses, resumes, cancels or aborts, and that has no
-- replan callback, comes to an end, whatever its executor answers: with a round for each step
-- and each retry that the policy grants, `execute` returns, and the execution is completed or failed.
pub execute_ends :
    (env : Env) (fuel : ℕ) (w : World) (plan : PlanResult)
    → IsQuiet env
    → w.context.plan ≡ some plan
    → w.context.aborted ≡ false
    → can_transition w.context.machine Status.running ≡ true
    → (length plan.steps + 1) * (w.context.retry_manager.retry_policy.max_attempts + 1) ≤ fuel
    → ((execute env fuel w).0 ≡ return tt)
      × ((status_of (execute env fuel w).1 ≡ Status.completed)
          ⊎ (status_of (execute env fuel w).1 ≡ Status.failed))
execute_ends env fuel w plan quiet p a t enough =
    let w' = begun plan w in
    rw (execute-run_plan env fuel w plan p t, run_plan-conclude env fuel w')
      (conclude-Over (run_rounds env fuel w').0 (run_rounds env fuel w').1 (
        run_rounds-Over plan env quiet fuel w' (begun-Steady plan w p a)
          (need-lt plan (course w') fuel (unfold begun start in enough))))
