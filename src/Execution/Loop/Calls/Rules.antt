-- ===== src/Execution/Loop/Calls/Rules.antt =====
-- Actions that do not call the executor, and rules to show it of a `do` block.
use agent_os.Base.{String, Bool, true, false, ◌≡◌, refl, ◌∙◌, if◌then◌else◌, arith}
use agent_os.Execution.Types.{
  ExecutionStatus as Status, ExecutionStepState as StepState, ExecutionError,
}
use agent_os.Execution.State.{transition, set_step_state}
use agent_os.Execution.History.{History}
use agent_os.Execution.Context.{Context}
use agent_os.Execution.Events.{ExecutionEvent}
use agent_os.Execution.Loop.Monad.{
  World, Outcome, return, throw, blocked, out_of_fuel, Exec, and_then, handle, ◌>>=◌, ◌>>◌, pure,
  raise, gets, try_catch, modify, modify_history, emit, set_status, set_step,
}

-- An action that does not call the executor.
pub record Fixes {A : Type 0} (m : Exec A) : Type 0 where
  pub at : (w : World) → (m w).1.calls ≡ w.calls

module _ {A B : Type 0} where
  and_then-Fixes :
      (o : Outcome A) (f : A → Exec B) (w : World)
      → ((a : A) → Fixes (f a))
      → (and_then o f w).1.calls ≡ w.calls
  and_then-Fixes (return a) f w hf = (hf a).at w
  and_then-Fixes (throw e) f w hf = refl
  and_then-Fixes blocked f w hf = refl
  and_then-Fixes out_of_fuel f w hf = refl

  -- Whatever comes first, what follows adds no call.
  pub calls->>= :
      (m : Exec A) (f : A → Exec B) (w : World)
      → ((a : A) → Fixes (f a))
      → ((m >>= f) w).1.calls ≡ (m w).1.calls
  unfolding ◌>>=◌
  calls->>= m f w hf = and_then-Fixes (m w).0 f (m w).1 hf

  pub >>=-Fixes :
      {m : Exec A} {f : A → Exec B} → Fixes m → ((a : A) → Fixes (f a)) → Fixes (m >>= f)
  >>=-Fixes {m} {f} hm hf = record { at = λ w. calls->>= m f w hf ∙ hm.at w }

pub >>-Fixes : {B : Type 0} {m : Exec (Unit {0})} {k : Exec B} → Fixes m → Fixes k → Fixes (m >> k)
unfolding ◌>>◌
>>-Fixes hm hk = >>=-Fixes hm (λ _. hk)

module _ {A : Type 0} where
  handle-Fixes :
      (o : Outcome A) (f : ExecutionError → Exec A) (w : World)
      → ((e : ExecutionError) → Fixes (f e))
      → (handle o f w).1.calls ≡ w.calls
  handle-Fixes (return a) f w hf = refl
  handle-Fixes (throw e) f w hf = (hf e).at w
  handle-Fixes blocked f w hf = refl
  handle-Fixes out_of_fuel f w hf = refl

  pub try_catch-Fixes :
      {m : Exec A} {f : ExecutionError → Exec A}
      → Fixes m
      → ((e : ExecutionError) → Fixes (f e))
      → Fixes (try_catch m f)
  unfolding try_catch
  try_catch-Fixes {m} {f} hm hf = record { at = λ w. handle-Fixes (m w).0 f (m w).1 hf ∙ hm.at w }

  pub pure-Fixes : (a : A) → Fixes (pure a)
  unfolding pure
  pure-Fixes a = record { at = λ w. refl }

  pub raise-Fixes : (e : ExecutionError) → Fixes {A = A} (raise e)
  unfolding raise
  raise-Fixes e = record { at = λ w. refl }

  pub gets-Fixes : (f : World → A) → Fixes (gets f)
  unfolding gets
  gets-Fixes f = record { at = λ w. refl }

  pub if-Fixes : (b : Bool) {m k : Exec A} → Fixes m → Fixes k → Fixes (if b then m else k)
  if-Fixes true hm hk = hm
  if-Fixes false hm hk = hk

pub modify-Fixes : (f : Context → Context) → Fixes (modify f)
unfolding modify
modify-Fixes f = record { at = λ w. refl }

pub modify_history-Fixes : (f : Context → History) → Fixes (modify_history f)
unfolding modify_history modify
modify_history-Fixes f = record { at = λ w. refl }

pub emit-Fixes : (e : Context → ExecutionEvent) → Fixes (emit e)
unfolding emit
emit-Fixes e = record { at = λ w. refl }

pub set_status-Fixes : (to : Status) → Fixes (set_status to)
unfolding set_status transition
set_status-Fixes to = record { at = λ w. ground arith }

pub set_step-Fixes : (id : String) (s : StepState) → Fixes (set_step id s)
unfolding set_step set_step_state
set_step-Fixes id s = record { at = λ w. ground arith }

pub ruleset fixes = (
  >>=-Fixes, >>-Fixes, try_catch-Fixes, pure-Fixes, raise-Fixes, gets-Fixes, if-Fixes, modify-Fixes,
  modify_history-Fixes, emit-Fixes, set_status-Fixes, set_step-Fixes,
)
