-- ===== src/Runtime/Startup/Run/Ready.antt =====
-- Which steps the manager starts.
use agent_os.Runtime.Startup.{StartupStep, names_of, topological_sort}
use agent_os.Runtime.Startup.Run.{
  Manager, StartupStatus, Waiting, nothing, startup, rollback, create_startup_manager, unmet,
  run_from, roll_back_from, update_status, end_run, has_rollback, start, Event, fulfilled, rejected,
  timed_out, failed, settle_fulfilled, settle_rejected, time_out, settle, settle_all, begin,
}
use agent_os.Base.{
  ℕ, String, string_eq, true, not, List, [], ◌∷◌, ◌++◌, reverse, Option, none, some, ◌≡◌, refl, ◌∙◌,
  sym, ap, subst, includes, keep, All, arith, Bool-cases, ◌⊎◌, inl, inr,
}
use mathlib.Core.Option.{some-injective}
use mathlib.Core.List.{append-nil, append_assoc}

-- Each step's dependencies stand before it, all of them.
abbrev pub Met : List String → List StartupStep → Type 0
Met before [] = Unit
Met before (step ∷ steps) =
    All (λ d. includes before d ≡ true) step.dependencies × Met (before ++ step.name ∷ []) steps

Met-append :
    (before : List String) (steps : List StartupStep) (step : StartupStep)
    → Met before steps
    → All (λ d. includes (before ++ names_of steps) d ≡ true) step.dependencies
    → Met before (steps ++ step ∷ [])
Met-append before [] step m h =
    (subst (λ b. All (λ d. includes b d ≡ true) step.dependencies) (append-nil before) h, tt)
Met-append before (s ∷ steps) step m h = (
  m.0,
  Met-append (before ++ s.name ∷ []) steps step m.1 (
      subst (λ b. All (λ d. includes b d ≡ true) step.dependencies)
        (sym (append_assoc before (s.name ∷ []) (names_of steps))) h),
)

names_of-append : (xs ys : List StartupStep) → names_of (xs ++ ys) ≡ names_of xs ++ names_of ys
names_of-append [] ys = refl
names_of-append (x ∷ xs) ys = ap (λ names. x.name ∷ names) (names_of-append xs ys)

none_unmet :
    (started ds : List String)
    → keep (λ d. not (includes started d)) ds ≡ []
    → All (λ d. includes started d ≡ true) ds
none_unmet started [] h = tt
none_unmet started (d ∷ ds) h = elim (Bool-cases (includes started d)) [
  | inl met ↦ (met, none_unmet started ds (ground (arith, h, met)))
  | inr missing ↦ absurd (ground (arith, h, missing))
]

-- The steps that were called are the first of the sorted ones, each after what it depends on.
pub record InOrder (sorted : List StartupStep) (calls : List String) : Type 0 where
  pub called : List StartupStep
  pub rest : List StartupStep
  pub split : sorted ≡ called ++ rest
  pub names : calls ≡ names_of called
  pub met : Met [] called

-- The run is about to turn to the steps `rest`.
record Before (rest sorted : List StartupStep) (started calls : List String) : Type 0 where
  called : List StartupStep
  split : sorted ≡ called ++ rest
  ended : started ≡ names_of called
  names : calls ≡ names_of called
  met : Met [] called

-- The same, by what the run waits for.
abbrev Follows : Waiting → List StartupStep → List String → List String → Type 0
Follows nothing sorted started calls = InOrder sorted calls
Follows (startup step rest) sorted started calls =
    Before rest sorted (started ++ step.name ∷ []) calls
Follows (rollback failed_name names) sorted started calls = InOrder sorted calls

abbrev IsFollowed : Manager → Type 0
IsFollowed s = Follows s.waiting s.sorted s.started s.calls

Before-InOrder :
    (rest sorted : List StartupStep) (started calls : List String)
    → Before rest sorted started calls
    → InOrder sorted calls
Before-InOrder rest sorted started calls b = record {
  called = b.called;
  rest = rest;
  split = b.split;
  names = b.names;
  met = b.met;
}

List-cases : {A : Type 0} (xs : List A) → (xs ≡ []) ⊎ ((x : A) × (ys : List A) × (xs ≡ x ∷ ys))
List-cases [] = inl refl
List-cases (x ∷ xs) = inr (x, xs, refl)

module _ (now : ℕ) where
  pub run_from_met :
      (step : StartupStep) (rest : List StartupStep) (s : Manager)
      → unmet s.started step ≡ []
      → run_from now (step ∷ rest) s
        ≡ record s { waiting = startup step rest; calls = s.calls ++ step.name ∷ [] }
  unfolding run_from
  run_from_met step rest s h = rw (h, run_from)

  run_from-unmet :
      (step : StartupStep) (rest : List StartupStep) (s : Manager) (d : String) (ds : List String)
      → unmet s.started step ≡ d ∷ ds
      → run_from now (step ∷ rest) s ≡ end_run now (update_status failed (some step.name) now s)
  unfolding run_from
  run_from-unmet step rest s d ds h = rw (h, run_from)

  met-Before :
      (step : StartupStep) (rest sorted : List StartupStep) (started calls : List String)
      → Before (step ∷ rest) sorted started calls
      → unmet started step ≡ []
      → Before rest sorted (started ++ step.name ∷ []) (calls ++ step.name ∷ [])
  met-Before step rest sorted started calls b h =
      let names = sym (names_of-append b.called (step ∷ [])) in
      record {
        called = b.called ++ step ∷ [];
        split = b.split ∙ sym (append_assoc b.called (step ∷ []) rest);
        ended = ap (λ names. names ++ step.name ∷ []) b.ended ∙ names;
        names = ap (λ names. names ++ step.name ∷ []) b.names ∙ names;
        met = Met-append [] b.called step b.met (
            subst (λ started. All (λ d. includes started d ≡ true) step.dependencies) b.ended
              (none_unmet started step.dependencies h));
      }

  run_from-IsFollowed :
      (rest : List StartupStep) (s : Manager)
      → Before rest s.sorted s.started s.calls
      → IsFollowed (run_from now rest s)
  unfolding run_from
  run_from-IsFollowed [] s b = Before-InOrder [] s.sorted s.started s.calls b
  run_from-IsFollowed (step ∷ rest) s b = elim (List-cases (unmet s.started step)) [
    | inl met ↦
        rw (run_from_met step rest s met) (met-Before step rest s.sorted s.started s.calls b met)
    | inr (d, ds, missing) ↦
        rw (run_from-unmet step rest s d ds missing)
          (Before-InOrder (step ∷ rest) s.sorted s.started s.calls b)
  ]

  roll_back_from-IsFollowed :
      (name : String) (names : List String) (s : Manager)
      → InOrder s.sorted s.calls
      → IsFollowed (roll_back_from now name names s)
  unfolding roll_back_from
  roll_back_from-IsFollowed name [] s o = o
  roll_back_from-IsFollowed name (n ∷ names) s o = elim (Bool-cases (has_rollback s.sorted n)) [
    | inl h ↦ rw (h, roll_back_from) o
    | inr h ↦ rw (h, roll_back_from) (roll_back_from-IsFollowed name names s o)
  ]

Follows-InOrder :
    (w : Waiting) (sorted : List StartupStep) (started calls : List String)
    → Follows w sorted started calls
    → InOrder sorted calls
Follows-InOrder nothing sorted started calls f = f
Follows-InOrder (startup step rest) sorted started calls f = Before-InOrder rest _ _ _ f
Follows-InOrder (rollback name names) sorted started calls f = f

settle_fulfilled-IsFollowed :
    (now : ℕ) (w : Waiting) (s : Manager)
    → s.waiting ≡ w
    → Follows w s.sorted s.started s.calls
    → IsFollowed (settle_fulfilled now w s)
settle_fulfilled-IsFollowed now nothing s e f = rw e f
settle_fulfilled-IsFollowed now (startup step rest) s e f = run_from-IsFollowed now rest _ f
settle_fulfilled-IsFollowed now (rollback name names) s e f =
    roll_back_from-IsFollowed now name names s f

settle_rejected-IsFollowed :
    (now : ℕ) (w : Waiting) (s : Manager)
    → s.waiting ≡ w
    → Follows w s.sorted s.started s.calls
    → IsFollowed (settle_rejected now w s)
settle_rejected-IsFollowed now nothing s e f = rw e f
settle_rejected-IsFollowed now (startup step rest) s e f =
    roll_back_from-IsFollowed now step.name (reverse s.started) _ (Before-InOrder rest _ _ _ f)
settle_rejected-IsFollowed now (rollback name names) s e f =
    roll_back_from-IsFollowed now name names s f

time_out-IsFollowed :
    (now : ℕ) (r : Option StartupStatus) (s : Manager)
    → IsFollowed s
    → IsFollowed (time_out now r s)
time_out-IsFollowed now none s f = f
time_out-IsFollowed now (some r) s f = f

settle-IsFollowed : (e : Event) (s : Manager) → IsFollowed s → IsFollowed (settle e s)
unfolding settle
settle-IsFollowed (fulfilled now) s f = settle_fulfilled-IsFollowed now s.waiting s refl f
settle-IsFollowed (rejected now) s f = settle_rejected-IsFollowed now s.waiting s refl f
settle-IsFollowed (timed_out now) s f = time_out-IsFollowed now s.resolved s f

settle_all-IsFollowed :
    (es : List Event) (s : Manager) → IsFollowed s → IsFollowed (settle_all es s)
unfolding settle_all
settle_all-IsFollowed [] s f = f
settle_all-IsFollowed (e ∷ es) s f = settle_all-IsFollowed es (settle e s) (settle-IsFollowed e s f)

begin-IsFollowed :
    (now : ℕ) (steps : List StartupStep) (o : Option (List StartupStep)) (s : Manager)
    → begin now (create_startup_manager steps) o ≡ some s
    → IsFollowed s
unfolding create_startup_manager
begin-IsFollowed now steps none s h = absurd cc
begin-IsFollowed now steps (some sorted) s h = subst IsFollowed (some-injective _ _ h) (
    run_from-IsFollowed now sorted _
      (record { called = []; split = refl; ended = refl; names = refl; met = tt }))

-- Whatever the steps depend on, and whatever settles: the steps whose `startup` was called are the
-- first of the sorted ones, in that order, and each was called after all its dependencies.
pub calls-settle_all :
    (now : ℕ) (steps : List StartupStep) (es : List Event) (s : Manager)
    → start now (create_startup_manager steps) ≡ some s
    → InOrder (settle_all es s).sorted (settle_all es s).calls
unfolding start create_startup_manager
calls-settle_all now steps es s h =
    Follows-InOrder _ _ _ _
      (settle_all-IsFollowed es s (begin-IsFollowed now steps (topological_sort steps) s h))
