-- ===== src/Execution/Loop/Monad.antt =====
-- Actions of the loop: state passing over the shared context and what an observer sees of a run,
-- with exceptions. What an `await` meets comes from the environment.
use agent_os.Base.{ℕ, String, List, [], ◌∷◌, ◌++◌, Option, Result, ok, err}
use agent_os.Planning.Types.{PlanStep, PlanResult}
use agent_os.Execution.Types.{
  ExecutionStatus, ExecutionStepState, ExecutionStepResult, ExecutionError,
}
use agent_os.Execution.State.{StateMachine, transition, set_step_state}
use agent_os.Execution.History.{History}
use agent_os.Execution.Context.{Context}
use agent_os.Execution.Events.{ExecutionEvent}

-- What a caller may do to an execution while it waits: the methods `pause`, `resume` and `cancel`
-- of the loop, and raising the abort signal.
pub data Control : Type 0 where
  pause resume abort : Control
  cancel : (reason : String) → Control

-- The end of an `await`: what callers did meanwhile, the clock's reading, and the answer.
pub record Reply (A : Type 0) : Type 0 where
  pub controls : List Control
  pub clock : ℕ
  pub answer : A

-- A step executor answers with a result, or throws.
pub data Executed : Type 0 where
  result : ExecutionStepResult → Executed
  threw : (message : String) → Executed

-- The answers of the environment, by the number of the call; a replan callback may be missing, and
-- its answer `none` is a throw. A wait for a resume ends when the status is seen not to be paused.
pub record Env : Type 0 where
  pub executor : ℕ → PlanStep → Reply Executed
  pub replan_callback : Option (ℕ → Reply (Option PlanResult))
  pub sleeping : ℕ → (ms : ℕ) → Reply (Unit {0})
  pub resuming : ℕ → Reply (Unit {0})

pub record World : Type 0 where
  pub context : Context
  pub events : List ExecutionEvent
  -- the ids of the steps that the executor was called for
  pub calls : List String
  pub replans : ℕ
  pub sleeps : ℕ
  pub waits : ℕ

-- `blocked`: the awaited promise never settles. `out_of_fuel`: the loop is still running.
pub data Outcome (A : Type 0) : Type 0 where
  return : A → Outcome A
  throw : ExecutionError → Outcome A
  blocked out_of_fuel : Outcome A

abbrev pub Exec : Type 0 → Type 0
Exec A = World → Outcome A × World

module _ {A B : Type 0} where
  abbrev pub and_then : Outcome A → (A → Exec B) → Exec B
  and_then (return a) f w = f a w
  and_then (throw e) f w = (throw e, w)
  and_then blocked f w = (blocked, w)
  and_then out_of_fuel f w = (out_of_fuel, w)

  infixl 5 ◌>>=◌ ◌>>◌
  unfoldable pub ◌>>=◌ : Exec A → (A → Exec B) → Exec B
  ◌>>=◌ m f w = let (o, w') = m w in and_then o f w'

  unfoldable pub ◌>>◌ : Exec A → Exec B → Exec B
  unfolding ◌>>=◌
  m >> k = m >>= λ _. k

module _ {A : Type 0} where
  unfoldable pub pure : A → Exec A
  pure a w = (return a, w)

  unfoldable pub raise : ExecutionError → Exec A
  raise e w = (throw e, w)

  unfoldable pub gets : (World → A) → Exec A
  gets f w = (return (f w), w)

  abbrev pub handle : Outcome A → (ExecutionError → Exec A) → Exec A
  handle (throw e) h w = h e w
  handle o h w = (o, w)

  -- `try … catch (error) …`
  unfoldable pub try_catch : Exec A → (ExecutionError → Exec A) → Exec A
  try_catch m h w = let (o, w') = m w in handle o h w'

unfoldable pub modify : (Context → Context) → Exec (Unit {0})
modify f w = (return tt, record w { context = f w.context })

unfoldable pub modify_history : (Context → History) → Exec (Unit {0})
unfolding modify
modify_history f = modify (λ c. record c { history = f c })

unfoldable pub emit : (Context → ExecutionEvent) → Exec (Unit {0})
emit e w = (return tt, record w { events = w.events ++ e w.context ∷ [] })

move_machine : Result ExecutionError StateMachine → Exec (Unit {0})
move_machine (ok m) w = (return tt, record w { context = record w.context { machine = m } })
move_machine (err e) w = (throw e, w)

-- `context.stateMachine.transition(to)`
unfoldable pub set_status : ExecutionStatus → Exec (Unit {0})
unfolding move_machine
set_status to w = move_machine (transition w.context.machine to) w

-- `context.stateMachine.setStepState(id, state)`
unfoldable pub set_step : String → ExecutionStepState → Exec (Unit {0})
unfolding move_machine
set_step id state w = move_machine (set_step_state w.context.machine id state) w
