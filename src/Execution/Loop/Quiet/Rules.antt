-- ===== src/Execution/Loop/Quiet/Rules.antt =====
-- Actions that leave what decides the course of a run, and rules to show it of a `do` block.
use agent_os.Base.{ℕ, String, Bool, true, false, [], Option, ◌≡◌, refl, ◌∙◌, if◌then◌else◌, arith}
use agent_os.Planning.Types.{PlanResult}
use agent_os.Execution.Types.{ExecutionStatus as Status, ExecutionStepState as StepState}
use agent_os.Execution.State.{set_step_state}
use agent_os.Execution.Retry.{RetryManager}
use agent_os.Execution.History.{History}
use agent_os.Execution.Context.{Context}
use agent_os.Execution.Events.{ExecutionEvent}
use agent_os.Execution.Loop.Monad.{
  Reply, World, Outcome, return, throw, blocked, out_of_fuel, Exec, and_then, ◌>>=◌, ◌>>◌, pure,
  gets, modify, modify_history, emit, set_step,
}
use agent_os.Execution.Loop.{await_reply, perform_all, is_cancelled_error}

-- The part of the context that decides whether there is another round.
pub record Course : Type 0 where
  pub status : Status
  pub aborted : Bool
  pub plan : Option PlanResult
  pub index : ℕ
  pub retries : RetryManager

abbrev pub course_in : Context → Course
course_in c = record {
  status = c.machine.current_status;
  aborted = c.aborted;
  plan = c.plan;
  index = c.current_step_index;
  retries = c.retry_manager;
}

abbrev pub course : World → Course
course w = course_in w.context

-- The action returned, or threw an error that is not a cancellation.
abbrev pub Settled : {A : Type 0} → Outcome A → Type 0
Settled (return a) = Unit
Settled (throw e) = is_cancelled_error e ≡ false
Settled blocked = ⊥
Settled out_of_fuel = ⊥

-- An action that returns or throws, and leaves the course.
pub record Calm {A : Type 0} (m : Exec A) : Type 0 where
  pub same : (w : World) → course (m w).1 ≡ course w
  pub settled : (w : World) → Settled (m w).0

module _ {A B : Type 0} (f : A → Exec B) (hf : (a : A) → Calm (f a)) where
  and_then-same : (o : Outcome A) (w : World) → course (and_then o f w).1 ≡ course w
  and_then-same (return a) w = (hf a).same w
  and_then-same (throw e) w = refl
  and_then-same blocked w = refl
  and_then-same out_of_fuel w = refl

  and_then-Settled : (o : Outcome A) (w : World) → Settled o → Settled (and_then o f w).0
  and_then-Settled (return a) w h = (hf a).settled w
  and_then-Settled (throw e) w h = h
  and_then-Settled blocked w h = h
  and_then-Settled out_of_fuel w h = h

pub >>=-Calm :
    {A B : Type 0} {m : Exec A} {f : A → Exec B} → Calm m → ((a : A) → Calm (f a)) → Calm (m >>= f)
unfolding ◌>>=◌
>>=-Calm {m = m} {f} hm hf = record {
  same = λ w. and_then-same f hf (m w).0 (m w).1 ∙ hm.same w;
  settled = λ w. and_then-Settled f hf (m w).0 (m w).1 (hm.settled w);
}

pub >>-Calm : {B : Type 0} {m : Exec (Unit {0})} {k : Exec B} → Calm m → Calm k → Calm (m >> k)
unfolding ◌>>◌
>>-Calm hm hk = >>=-Calm hm (λ _. hk)

module _ {A : Type 0} where
  pub pure-Calm : (a : A) → Calm (pure a)
  unfolding pure
  pure-Calm a = record { same = λ w. refl; settled = λ w. tt }

  pub gets-Calm : (f : World → A) → Calm (gets f)
  unfolding gets
  gets-Calm f = record { same = λ w. refl; settled = λ w. tt }

  pub if-Calm : (b : Bool) {m k : Exec A} → Calm m → Calm k → Calm (if b then m else k)
  if-Calm true hm hk = hm
  if-Calm false hm hk = hk

  -- A reply without a control.
  pub await_reply-Calm : (r : Reply A) → r.controls ≡ [] → Calm (await_reply r)
  unfolding await_reply perform_all
  await_reply-Calm r e = record { same = λ w. rw e; settled = λ w. tt }

pub modify-Calm :
    (f : Context → Context) → ((c : Context) → course_in (f c) ≡ course_in c) → Calm (modify f)
unfolding modify
modify-Calm f same = record { same = λ w. same w.context; settled = λ w. tt }

pub modify_history-Calm : (f : Context → History) → Calm (modify_history f)
unfolding modify_history modify
modify_history-Calm f = record { same = λ w. refl; settled = λ w. tt }

pub emit-Calm : (e : Context → ExecutionEvent) → Calm (emit e)
unfolding emit
emit-Calm e = record { same = λ w. refl; settled = λ w. tt }

pub set_step-Calm : (id : String) (s : StepState) → Calm (set_step id s)
unfolding set_step set_step_state
set_step-Calm id s = record { same = λ w. ground arith; settled = λ w. ground arith }

pub ruleset calm = (
  >>=-Calm, >>-Calm, pure-Calm, gets-Calm, if-Calm, modify_history-Calm, emit-Calm, set_step-Calm,
)
