-- ===== src/Runtime/Startup/Run/Rollback.antt =====
-- What the manager rolls back when the startup of a step is rejected.
use agent_os.Runtime.Startup.{StartupStep}
use agent_os.Runtime.Startup.Run.{
  Manager, rolled_back, StartupStatus, Waiting, nothing, startup, rollback, roll_back_from,
  has_rollback, settle_fulfilled, settle_rejected, Event, fulfilled, rejected, timed_out, time_out,
  settle, settle_all,
}
use agent_os.Base.{
  Bool, if◌then◌else◌, ◌==◌, string_eq, ℕ, ◌+◌, ◌≤◌, String, true, false, List, [], ◌∷◌, ◌++◌,
  reverse, Option, none, some, ◌≡◌, refl, ◌∙◌, sym, ap, subst, keep, length, arith, Bool-cases, inl,
  inr,
}
use agent_os.Base.Map.{is_some}
use mathlib.Core.List.{append-nil, append_assoc}

-- How many of the events end an `await`.
abbrev pub answers : List Event → ℕ
answers [] = 0
answers (fulfilled now ∷ es) = answers es + 1
answers (rejected now ∷ es) = answers es + 1
answers (timed_out now ∷ es) = answers es

-- Whether the first of the steps with a name has a `rollback`.
abbrev pub rolls_back : List StartupStep → String → Bool
rolls_back [] name = false
rolls_back (step ∷ steps) name =
    if step.name == name then step.has_rollback else rolls_back steps name

has_rollback-rolls_back :
    (steps : List StartupStep) (name : String) → has_rollback steps name ≡ rolls_back steps name
has_rollback-rolls_back [] name = refl
has_rollback-rolls_back (step ∷ steps) name = ground (arith, has_rollback-rolls_back steps name)

-- Those of the steps `names` that have a `rollback` were rolled back, after the steps `before`.
pub record RolledBack (sorted : List StartupStep) (before names : List String)
    (failed_name : String) (t : Manager) : Type 0 where
  pub ended : t.waiting ≡ nothing
  pub phase : t.phase ≡ rolled_back
  pub failed_step : t.failed_step ≡ some failed_name
  pub rollbacks : t.rollbacks ≡ before ++ keep (rolls_back sorted) names

pub settle-fulfilled :
    (now : ℕ) (w : Waiting) (s : Manager)
    → s.waiting ≡ w
    → settle (fulfilled now) s ≡ settle_fulfilled now w s
unfolding settle
settle-fulfilled now w s e = ap (λ w. settle_fulfilled now w s) e

settle-rejected :
    (now : ℕ) (w : Waiting) (s : Manager)
    → s.waiting ≡ w
    → settle (rejected now) s ≡ settle_rejected now w s
unfolding settle
settle-rejected now w s e = ap (λ w. settle_rejected now w s) e

settle-timed_out :
    (now : ℕ) (s : Manager) → is_some s.resolved ≡ true → settle (timed_out now) s ≡ s
unfolding settle
settle-timed_out now s e = go s.resolved e
  where
    go : (r : Option StartupStatus) → is_some r ≡ true → time_out now r s ≡ s
    go none e = absurd cc
    go (some r) e = refl

-- A run that has ended stays as it is.
pub settle_all_ended :
    (es : List Event) (s : Manager)
    → s.waiting ≡ nothing
    → is_some s.resolved ≡ true
    → settle_all es s ≡ s
unfolding settle_all
settle_all_ended [] s w e = refl
settle_all_ended (fulfilled now ∷ es) s w e =
    rw (settle-fulfilled now nothing s w) (settle_all_ended es s w e)
settle_all_ended (rejected now ∷ es) s w e =
    rw (settle-rejected now nothing s w) (settle_all_ended es s w e)
settle_all_ended (timed_out now ∷ es) s w e =
    rw (settle-timed_out now s e) (settle_all_ended es s w e)

module _ (failed_name : String) where
  -- From the head of the loop over `names`, the rest of them is rolled back.
  abbrev RollsBack : List String → Type 0
  RollsBack names =
      (now : ℕ) (s : Manager) (es : List Event)
      → length names ≤ answers es
      → RolledBack s.sorted s.rollbacks names failed_name
          (settle_all es (roll_back_from now failed_name names s))

  time_out_keeps :
      (now : ℕ) (r : Option StartupStatus) (s : Manager)
      → ((time_out now r s).waiting ≡ s.waiting)
        × ((time_out now r s).sorted ≡ s.sorted)
        × ((time_out now r s).rollbacks ≡ s.rollbacks)
  time_out_keeps now none s = (refl, refl, refl)
  time_out_keeps now (some r) s = (refl, refl, refl)

  -- While the run waits for a rollback.
  waiting-RolledBack :
      (names : List String) (es : List Event) (s : Manager)
      → RollsBack names
      → s.waiting ≡ rollback failed_name names
      → length names + 1 ≤ answers es
      → RolledBack s.sorted s.rollbacks names failed_name (settle_all es s)
  unfolding settle_all settle
  waiting-RolledBack names [] s next w le = absurd (omega arith)
  waiting-RolledBack names (fulfilled now ∷ es) s next w le =
      rw (settle-fulfilled now _ s w) (next now s es (omega arith))
  waiting-RolledBack names (rejected now ∷ es) s next w le =
      rw (settle-rejected now _ s w) (next now s es (omega arith))
  waiting-RolledBack names (timed_out now ∷ es) s next w le =
      let (waits, sorted, rollbacks) = time_out_keeps now s.resolved s in
      let t = settle_all es (time_out now s.resolved s) in
      let r = waiting-RolledBack names es (time_out now s.resolved s) next (waits ∙ w) le in
      subst (λ sorted. RolledBack sorted s.rollbacks names failed_name t) sorted
        (subst (λ before. RolledBack (time_out now s.resolved s).sorted before names failed_name t)
          rollbacks r)

  rolled :
      (name : String) (names : List String) (s : Manager) (es : List Event)
      → has_rollback s.sorted name ≡ true
      → RollsBack names
      → length names + 1 ≤ answers es
      → (now : ℕ)
      → RolledBack s.sorted s.rollbacks
          (name ∷ names)
          failed_name
          (settle_all es (roll_back_from now failed_name (name ∷ names) s))
  unfolding roll_back_from
  rolled name names s es h next le now =
      let s' : Manager = record s {
        waiting = rollback failed_name names;
        rollbacks = s.rollbacks ++ name ∷ [];
      } in
      let same : roll_back_from now failed_name (name ∷ names) s ≡ s' =
        rw (h, roll_back_from) refl in
      let r = waiting-RolledBack names es s' next refl le in
      subst (λ t. RolledBack s.sorted s.rollbacks (name ∷ names) failed_name (settle_all es t))
        (sym same)
        (record {
          ended = r.ended;
          phase = r.phase;
          failed_step = r.failed_step;
          rollbacks =
              r.rollbacks
              ∙ append_assoc s.rollbacks (name ∷ []) _
              ∙ rw (sym (has_rollback-rolls_back s.sorted name) ∙ h) refl;
        })

  skipped :
      (name : String) (names : List String) (s : Manager) (es : List Event)
      → has_rollback s.sorted name ≡ false
      → RollsBack names
      → length names + 1 ≤ answers es
      → (now : ℕ)
      → RolledBack s.sorted s.rollbacks
          (name ∷ names)
          failed_name
          (settle_all es (roll_back_from now failed_name (name ∷ names) s))
  unfolding roll_back_from
  skipped name names s es h next le now =
      let same : roll_back_from now failed_name (name ∷ names) s
          ≡ roll_back_from now failed_name names s =
        rw (h, roll_back_from) refl in
      let r = next now s es (omega arith) in
      subst (λ t. RolledBack s.sorted s.rollbacks (name ∷ names) failed_name (settle_all es t))
        (sym same)
        (record {
          ended = r.ended;
          phase = r.phase;
          failed_step = r.failed_step;
          rollbacks = r.rollbacks ∙ rw (sym (has_rollback-rolls_back s.sorted name) ∙ h) refl;
        })

  names-RollsBack : (names : List String) → RollsBack names
  unfolding roll_back_from
  names-RollsBack [] now s es le =
      subst (RolledBack s.sorted s.rollbacks [] failed_name)
        (sym (settle_all_ended es (roll_back_from now failed_name [] s) refl refl))
        (record {
          ended = refl;
          phase = refl;
          failed_step = refl;
          rollbacks = sym (append-nil s.rollbacks);
        })
  names-RollsBack (name ∷ names) now s es le = elim (Bool-cases (has_rollback s.sorted name)) [
    | inl h ↦ rolled name names s es h (names-RollsBack names) (omega arith) now
    | inr h ↦ skipped name names s es h (names-RollsBack names) (omega arith) now
  ]

-- When the `startup` of a step is rejected, the steps that were started before it and have a
-- `rollback` are rolled back in the reverse of the order in which they were started, whatever their rollbacks come to and whether or not the timer fires
-- meanwhile: once each rollback has settled the phase is `rolled-back`, with that step as the
-- failed one.
pub rollbacks-settle_all :
    (now : ℕ) (step : StartupStep) (rest : List StartupStep) (es : List Event) (s : Manager)
    → s.waiting ≡ startup step rest
    → length (reverse s.started) ≤ answers es
    → RolledBack s.sorted s.rollbacks
        (reverse s.started)
        step.name
        (settle_all (rejected now ∷ es) s)
unfolding settle_all
rollbacks-settle_all now step rest es s w le =
    rw (settle-rejected now (startup step rest) s w)
      (names-RollsBack step.name (reverse s.started) now _ es le)
