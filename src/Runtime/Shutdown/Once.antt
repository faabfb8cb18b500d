-- ===== src/Runtime/Shutdown/Once.antt =====
-- That the steps are shut down once each, in reverse order.
use agent_os.Runtime.Shutdown.{
  Manager, shutting_down, stopped, ShutdownStatus, add_step, remove_step, run_from, shutdown,
  update_status, settle_fulfilled, settle_rejected, time_out, Input, add, remove, shut, fulfilled,
  rejected, expired, step, steps_all, resolve,
}
use agent_os.Base.{
  ℕ, ◌≤◌, String, true, false, List, [], ◌∷◌, ◌++◌, map, reverse, Option, none, some, ◌≡◌, refl,
  ◌∙◌, sym, ap, subst, length, arith, if-elim,
}
use mathlib.Core.List.{append-nil, append_assoc}

-- While the loop runs, the steps that were called and those after them are all of `order`; once it
-- has ended, those that were called are the first of `order`.
abbrev Follows : List String → Option (String × List String) → List String → Type 0
Follows order none calls = (left : List String) × (order ≡ calls ++ left)
Follows order (some (name, rest)) calls = order ≡ calls ++ rest

record Once (order : List String) (s : Manager) : Type 0 where
  follows : Follows order s.waiting s.calls
  begun : s.has_begun ≡ true

-- A call of `shutdown` after the first changes nothing.
shutdown_again : (now : ℕ) (s : Manager) → s.has_begun ≡ true → shutdown now s ≡ s
shutdown_again now s h = unfold shutdown in ground (arith, h)

-- The state in which the loop begins.
abbrev first : ℕ → Manager → Manager
first now s = record (update_status shutting_down now none none s) { has_begun = true; began = now }

shutdown-first :
    (now : ℕ) (s : Manager)
    → s.has_begun ≡ false
    → shutdown now s ≡ run_from now (reverse s.steps) (first now s)
unfolding shutdown
shutdown-first now s h = ground (arith, h)

settle-fulfilled_none : (now : ℕ) (s : Manager) → s.waiting ≡ none → step (fulfilled now) s ≡ s
unfolding step
settle-fulfilled_none now s e = ap (λ w. settle_fulfilled now w s) e

steps_all_ended :
    (ts : List ℕ) (s : Manager) → s.waiting ≡ none → steps_all (map fulfilled ts) s ≡ s
unfolding steps_all
steps_all_ended [] s e = refl
steps_all_ended (t ∷ ts) s e =
    ap (steps_all (map fulfilled ts)) (settle-fulfilled_none t s e) ∙ steps_all_ended ts s e

run_from_stops :
    (rest : List String) (ts : List ℕ) (now : ℕ) (s : Manager)
    → length rest ≤ length ts
    → let t = steps_all (map fulfilled ts) (run_from now rest s) in
      (t.phase ≡ stopped) × (t.failed_step ≡ none) × (t.calls ≡ s.calls ++ rest)
unfolding run_from resolve step steps_all
run_from_stops [] ts now s le =
    subst
      (λ (t : Manager). (t.phase ≡ stopped) × (t.failed_step ≡ none) × (t.calls ≡ s.calls ++ []))
      (sym (steps_all_ended ts (run_from now [] s) refl)) (refl, refl, sym (append-nil s.calls))
run_from_stops (name ∷ rest) [] now s le = absurd (omega arith)
run_from_stops (name ∷ rest) (t ∷ ts) now s le =
    let r =
      run_from_stops rest ts t
        (record s { waiting = some (name, rest); calls = s.calls ++ name ∷ [] }) (omega arith) in
    (r.0, r.1, r.2 ∙ append_assoc s.calls (name ∷ []) rest)

module _ (order : List String) where
  run_from-Once :
      (now : ℕ) (rest : List String) (s : Manager)
      → order ≡ s.calls ++ rest
      → s.has_begun ≡ true
      → Once order (run_from now rest s)
  unfolding run_from
  run_from-Once now [] s e b = record { follows = ([], e); begun = b }
  run_from-Once now (name ∷ rest) s e b = record {
    follows = e ∙ sym (append_assoc s.calls (name ∷ []) rest);
    begun = b;
  }

  settle_fulfilled-Once :
      (now : ℕ) (w : Option (String × List String)) (s : Manager)
      → Follows order w s.calls
      → Once order s
      → Once order (settle_fulfilled now w s)
  settle_fulfilled-Once now none s f o = o
  settle_fulfilled-Once now (some (name, rest)) s f o = run_from-Once now rest s f o.begun

  settle_rejected-Once :
      (now : ℕ) (w : Option (String × List String)) (s : Manager)
      → Follows order w s.calls
      → Once order s
      → Once order (settle_rejected now w s)
  unfolding settle_rejected resolve
  settle_rejected-Once now none s f o = o
  settle_rejected-Once now (some (name, rest)) s f o = record {
    follows = (rest, f);
    begun = o.begun;
  }

  time_out-Once :
      (now : ℕ) (r : Option ShutdownStatus) (s : Manager)
      → Once order s
      → Once order (time_out now r s)
  unfolding time_out resolve
  time_out-Once now none s o = record { follows = o.follows; begun = o.begun }
  time_out-Once now (some r) s o = o

  step-Once : (i : Input) (s : Manager) → Once order s → Once order (step i s)
  unfolding step add_step remove_step
  step-Once (add name) s o = record { follows = o.follows; begun = o.begun }
  step-Once (remove name) s o = record { follows = o.follows; begun = o.begun }
  step-Once (shut now) s o = subst (Once order) (sym (shutdown_again now s o.begun)) o
  step-Once (fulfilled now) s o = settle_fulfilled-Once now s.waiting s o.follows o
  step-Once (rejected now) s o = settle_rejected-Once now s.waiting s o.follows o
  step-Once (expired now) s o =
      if-elim (Once order) s.has_begun (time_out-Once now s.resolved s o) o

  steps_all-Once : (is : List Input) (s : Manager) → Once order s → Once order (steps_all is s)
  unfolding steps_all
  steps_all-Once [] s o = o
  steps_all-Once (i ∷ is) s o = steps_all-Once is (step i s) (step-Once i s o)

Follows-prefix :
    (order : List String) (w : Option (String × List String)) (calls : List String)
    → Follows order w calls
    → (left : List String) × (order ≡ calls ++ left)
Follows-prefix order none calls f = f
Follows-prefix order (some (name, rest)) calls f = (rest, f)

-- After the first call of `shutdown`, whatever is called and whatever settles, further calls of
-- `shutdown` included: the steps whose `shutdown` was called are the first of the registered steps
-- in reverse order, each once.
pub calls-steps_all :
    (now : ℕ) (is : List Input) (s : Manager)
    → s.has_begun ≡ false
    → s.calls ≡ []
    → (left : List String) × (reverse s.steps ≡ (steps_all is (shutdown now s)).calls ++ left)
calls-steps_all now is s b c =
    let o = steps_all-Once (reverse s.steps) is (shutdown now s) (
      subst (Once (reverse s.steps)) (sym (shutdown-first now s b))
        (run_from-Once (reverse s.steps) now (reverse s.steps) _ (rw c refl) refl)) in
    Follows-prefix (reverse s.steps) _ _ o.follows

-- Each registered step is shut down, and the phase ends `stopped`, once the first call of
-- `shutdown` has run its loop with steps that all succeed.
pub shutdown_stops :
    (now : ℕ) (ts : List ℕ) (s : Manager)
    → s.has_begun ≡ false
    → s.calls ≡ []
    → length (reverse s.steps) ≤ length ts
    → let t = steps_all (map fulfilled ts) (shutdown now s) in
      (t.phase ≡ stopped) × (t.failed_step ≡ none) × (t.calls ≡ reverse s.steps)
shutdown_stops now ts s b c le =
    rw (shutdown-first now s b)
      (let r = run_from_stops (reverse s.steps) ts now _ le in (r.0, r.1, r.2 ∙ rw c refl))
