-- ===== src/Execution/Loop/Success/Rules.antt =====
-- What an action of the loop returns, and what it leaves, from what it sees of the world.
use agent_os.Base.{ℕ, String, Bool, true, false, List, Option, ◌≡◌, refl, ◌∙◌, if◌then◌else◌}
use agent_os.Planning.Types.{PlanResult}
use agent_os.Execution.State.{StateMachine}
use agent_os.Execution.Context.{Context}
use agent_os.Execution.History.{History}
use agent_os.Execution.Events.{ExecutionEvent}
use agent_os.Execution.Loop.Monad.{
  World, return, Exec, ◌>>=◌, ◌>>◌, pure, gets, modify, modify_history, emit,
}

-- The part of the world that decides which steps run.
pub record Seen : Type 0 where
  pub machine : StateMachine
  pub aborted : Bool
  pub plan : Option PlanResult
  pub index : ℕ
  pub calls : List String

abbrev pub seen_in : Context → List String → Seen
seen_in c calls = record {
  machine = c.machine;
  aborted = c.aborted;
  plan = c.plan;
  index = c.current_step_index;
  calls = calls;
}

abbrev pub seen : World → Seen
seen w = seen_in w.context w.calls

-- From any world that looks like `s`, the action returns `a` and leaves one that looks like `t`.
pub record Runs (s : Seen) {A : Type 0} (m : Exec A) (a : A) (t : Seen) : Type 0 where
  pub value : (w : World) → seen w ≡ s → (m w).0 ≡ return a
  pub after : (w : World) → seen w ≡ s → seen (m w).1 ≡ t

module _ {s t u : Seen} where
  pub >>=-Runs :
      {A B : Type 0} {m : Exec A} (f : A → Exec B) {a : A} {b : B}
      → Runs s m a t
      → Runs t (f a) b u
      → Runs s (m >>= f) b u
  unfolding ◌>>=◌
  >>=-Runs {m = m} f hm hf = record {
    value = λ w e. rw (hm.value w e) (hf.value (m w).1 (hm.after w e));
    after = λ w e. rw (hm.value w e) (hf.after (m w).1 (hm.after w e));
  }

  pub >>-Runs :
      {B : Type 0} {m : Exec (Unit {0})} {k : Exec B} {b : B}
      → Runs s m tt t
      → Runs t k b u
      → Runs s (m >> k) b u
  unfolding ◌>>◌
  >>-Runs hm hk = >>=-Runs _ hm hk

module _ {s t : Seen} where
  pub gets-Runs :
      {A B : Type 0} (g : World → A) (f : A → Exec B) {b : B}
      → ((w : World) → seen w ≡ s → Runs s (f (g w)) b t)
      → Runs s (gets g >>= f) b t
  unfolding ◌>>=◌ gets
  gets-Runs g f h = record { value = λ w e. (h w e).value w e; after = λ w e. (h w e).after w e }

  pub then-Runs :
      {A : Type 0} {b : Bool} {m : Exec A} (k : Exec A) {a : A}
      → b ≡ true
      → Runs s m a t
      → Runs s (if b then m else k) a t
  then-Runs k e h = rw e h

  pub else-Runs :
      {A : Type 0} {b : Bool} (m : Exec A) {k : Exec A} {a : A}
      → b ≡ false
      → Runs s k a t
      → Runs s (if b then m else k) a t
  else-Runs m e h = rw e h

pub pure-Runs : {s : Seen} {A : Type 0} (a : A) → Runs s (pure a) a s
unfolding pure
pure-Runs a = record { value = λ w e. refl; after = λ w e. e }

pub modify-Runs :
    {s : Seen} (f : Context → Context)
    → ((c : Context) (calls : List String) → seen_in (f c) calls ≡ seen_in c calls)
    → Runs s (modify f) tt s
unfolding modify
modify-Runs f same = record { value = λ w e. refl; after = λ w e. same w.context w.calls ∙ e }

pub modify_history-Runs : {s : Seen} (f : Context → History) → Runs s (modify_history f) tt s
unfolding modify_history modify
modify_history-Runs f = record { value = λ w e. refl; after = λ w e. e }

pub emit-Runs : {s : Seen} (f : Context → ExecutionEvent) → Runs s (emit f) tt s
unfolding emit
emit-Runs f = record { value = λ w e. refl; after = λ w e. e }
