-- ===== src/Execution/Loop/Final/Rules.antt =====
-- Actions that leave a terminal status as it is, and rules to show it of a `do` block.
use agent_os.Base.{String, Bool, true, false, ◌≡◌, refl, ◌∙◌, if◌then◌else◌, arith}
use agent_os.Execution.Types.{
  ExecutionStatus as Status, ExecutionStepState as StepState, ExecutionStatus-discrete, status_eq,
  ExecutionError,
}
use agent_os.Execution.State.{
  is_terminal_status, transition, set_step_state, valid_execution_transitions,
}
use agent_os.Execution.History.{History}
use agent_os.Execution.Context.{Context}
use agent_os.Execution.Events.{ExecutionEvent}
use agent_os.Execution.Loop.Monad.{
  World, Outcome, return, throw, blocked, out_of_fuel, Exec, and_then, handle, ◌>>=◌, ◌>>◌, pure,
  raise, gets, try_catch, modify, modify_history, emit, set_status, set_step,
}

abbrev pub status_of : World → Status
status_of w = w.context.machine.current_status

-- An action that leaves a terminal status as it is.
pub record Sticks {A : Type 0} (m : Exec A) : Type 0 where
  pub at : (w : World) → is_terminal_status (status_of w) ≡ true → status_of (m w).1 ≡ status_of w

-- An update of the context that leaves the state machine.
abbrev pub SameStatus : (Context → Context) → Type 0
SameStatus f = (c : Context) → (f c).machine.current_status ≡ c.machine.current_status

module _ {A B : Type 0} where
  pub and_then-Sticks :
      (o : Outcome A) (f : A → Exec B) (w : World)
      → ((a : A) → Sticks (f a))
      → is_terminal_status (status_of w) ≡ true
      → status_of (and_then o f w).1 ≡ status_of w
  and_then-Sticks (return a) f w hf h = (hf a).at w h
  and_then-Sticks (throw e) f w hf h = refl
  and_then-Sticks blocked f w hf h = refl
  and_then-Sticks out_of_fuel f w hf h = refl

  pub >>=-Sticks :
      {m : Exec A} {f : A → Exec B} → Sticks m → ((a : A) → Sticks (f a)) → Sticks (m >>= f)
  unfolding ◌>>=◌
  >>=-Sticks {m} {f} hm hf = record {
    at = λ w h. let e = hm.at w h in and_then-Sticks (m w).0 f (m w).1 hf (rw e h) ∙ e;
  }

pub >>-Sticks :
    {B : Type 0} {m : Exec (Unit {0})} {k : Exec B} → Sticks m → Sticks k → Sticks (m >> k)
unfolding ◌>>◌
>>-Sticks hm hk = >>=-Sticks hm (λ _. hk)

module _ {A : Type 0} where
  pub handle-Sticks :
      (o : Outcome A) (f : ExecutionError → Exec A) (w : World)
      → ((e : ExecutionError) → Sticks (f e))
      → is_terminal_status (status_of w) ≡ true
      → status_of (handle o f w).1 ≡ status_of w
  handle-Sticks (return a) f w hf h = refl
  handle-Sticks (throw e) f w hf h = (hf e).at w h
  handle-Sticks blocked f w hf h = refl
  handle-Sticks out_of_fuel f w hf h = refl

  pub try_catch-Sticks :
      {m : Exec A} {f : ExecutionError → Exec A}
      → Sticks m
      → ((e : ExecutionError) → Sticks (f e))
      → Sticks (try_catch m f)
  unfolding try_catch
  try_catch-Sticks {m} {f} hm hf = record {
    at = λ w h. let e = hm.at w h in handle-Sticks (m w).0 f (m w).1 hf (rw e h) ∙ e;
  }

  pub pure-Sticks : (a : A) → Sticks (pure a)
  unfolding pure
  pure-Sticks a = record { at = λ w h. refl }

  pub raise-Sticks : (e : ExecutionError) → Sticks {A = A} (raise e)
  unfolding raise
  raise-Sticks e = record { at = λ w h. refl }

  pub gets-Sticks : (f : World → A) → Sticks (gets f)
  unfolding gets
  gets-Sticks f = record { at = λ w h. refl }

  pub if-Sticks : (b : Bool) {m k : Exec A} → Sticks m → Sticks k → Sticks (if b then m else k)
  if-Sticks true hm hk = hm
  if-Sticks false hm hk = hk

pub modify-Sticks : (f : Context → Context) → SameStatus f → Sticks (modify f)
unfolding modify
modify-Sticks f same = record { at = λ w h. same w.context }

pub modify_history-Sticks : (f : Context → History) → Sticks (modify_history f)
unfolding modify_history
modify_history-Sticks f = record { at = λ w h. refl }

pub emit-Sticks : (e : Context → ExecutionEvent) → Sticks (emit e)
unfolding emit
emit-Sticks e = record { at = λ w h. refl }

pub set_status-Sticks : (to : Status) → Sticks (set_status to)
unfolding set_status transition valid_execution_transitions ExecutionStatus-discrete
    is_terminal_status
set_status-Sticks to = record { at = λ w h. ground arith }

pub set_step-Sticks : (id : String) (s : StepState) → Sticks (set_step id s)
unfolding set_step set_step_state
set_step-Sticks id s = record { at = λ w h. ground arith }

pub ruleset sticks = (
  >>=-Sticks, >>-Sticks, try_catch-Sticks, pure-Sticks, raise-Sticks, gets-Sticks, if-Sticks,
  modify_history-Sticks, emit-Sticks, set_status-Sticks, set_step-Sticks,
)
