-- ===== src/Runtime/Startup/Run/Success.antt =====
-- A startup in which each step succeeds.
use agent_os.Runtime.Startup.{StartupStep, names_of, by_name_from, topological_sort}
use agent_os.Runtime.Startup.Sorting.Order.{Ordered}
use agent_os.Runtime.Startup.Sorting.Whole.{
  IsRanked, Kept, by_name_from-Kept, has-by_name_from, topological_sort_ordered,
}
use agent_os.Runtime.Startup.Run.{
  Manager, running, nothing, startup, create_startup_manager, run_from, start, begin, fulfilled,
  settle_all, settle_fulfilled,
}
use agent_os.Runtime.Startup.Run.Ready.{Met, run_from_met}
use agent_os.Runtime.Startup.Run.Rollback.{settle_all_ended, settle-fulfilled}
use agent_os.Base.{
  Distinct, beq_refl, false, ◌==◌, Bool-cases, inl, inr, ℕ, ◌≤◌, String, string_eq, true, not, List,
  [], ◌∷◌, ◌++◌, map, none, some, ◌≡◌, refl, ◌∙◌, sym, ap, subst, includes, keep, length, All,
  arith,
}
use agent_os.Base.Map.{Map, get, put, has, get-put}
use mathlib.Core.Option.{some-injective}
use mathlib.Core.List.{Memᴰ, append-nil, append_assoc}

none_missing :
    (started ds : List String)
    → All (λ d. includes started d ≡ true) ds
    → keep (λ d. not (includes started d)) ds ≡ []
none_missing started [] h = refl
none_missing started (d ∷ ds) h = ground (arith, h.0, none_missing started ds h.1)

-- The run has ended with all the steps started.
pub record IsRunning (started : List String) (t : Manager) : Type 0 where
  pub ended : t.waiting ≡ nothing
  pub phase : t.phase ≡ running
  pub failed_step : t.failed_step ≡ none
  pub started_steps : t.started ≡ started

run_from-IsRunning :
    (rest : List StartupStep) (ts : List ℕ) (now : ℕ) (s : Manager)
    → Met s.started rest
    → length rest ≤ length ts
    → IsRunning (s.started ++ names_of rest) (settle_all (map fulfilled ts) (run_from now rest s))
unfolding run_from settle_all
run_from-IsRunning [] ts now s m le =
    subst (IsRunning (s.started ++ []))
      (sym (settle_all_ended (map fulfilled ts) (run_from now [] s) refl refl))
      (record {
        ended = refl;
        phase = refl;
        failed_step = refl;
        started_steps = sym (append-nil s.started);
      })
run_from-IsRunning (step ∷ rest) [] now s m le = absurd (omega arith)
run_from-IsRunning (step ∷ rest) (t ∷ ts) now s m le =
    let s' : Manager = record s {
      waiting = startup step rest;
      calls = s.calls ++ step.name ∷ [];
    } in
    let r =
      run_from-IsRunning rest ts t (record s' { started = s.started ++ step.name ∷ [] }) m.1
        (omega arith) in
    rw
      (
        run_from_met now step rest s (none_missing s.started step.dependencies m.0),
        settle_all,
        settle-fulfilled t (startup step rest) s' refl,
      )
      (subst
        (λ started.
          IsRunning started
            (settle_all (map fulfilled ts) (settle_fulfilled t (startup step rest) s')))
        (append_assoc s.started (step.name ∷ []) (names_of rest)) r)

-- Each dependency of each step is the name of a registered step.
abbrev pub AreRegistered : List String → List StartupStep → Type 0
AreRegistered names = All (λ (s : StartupStep). All (λ d. includes names d ≡ true) s.dependencies)

module _ (steps : List StartupStep) where
  registered :
      (k : String) → includes (names_of steps) k ≡ true → has (by_name_from [] steps) k ≡ true
  registered k h = ground (arith, has-by_name_from steps [] k)

  placed_met :
      (before ds : List String)
      → All (λ d. has (by_name_from [] steps) d ≡ true → includes before d ≡ true) ds
      → All (λ d. includes (names_of steps) d ≡ true) ds
      → All (λ d. includes before d ≡ true) ds
  placed_met before [] p r = tt
  placed_met before (d ∷ ds) p r = (p.0 (registered d r.0), placed_met before ds p.1 r.1)

  Ordered-Met :
      (before : List String) (sorted : List StartupStep)
      → Ordered (by_name_from [] steps) before sorted
      → AreRegistered (names_of steps) sorted
      → Met before sorted
  Ordered-Met before [] o r = tt
  Ordered-Met before (step ∷ sorted) o r = (
    placed_met before step.dependencies o.0 r.0,
    Ordered-Met (before ++ step.name ∷ []) sorted o.2 r.1,
  )

  kept-AreRegistered :
      (sorted : List StartupStep)
      → AreRegistered (names_of steps) steps
      → All (λ (s : StartupStep). get (by_name_from [] steps) s.name ≡ some s) sorted
      → AreRegistered (names_of steps) sorted
  kept-AreRegistered [] r k = tt
  kept-AreRegistered (step ∷ sorted) r k =
      let kept =
        by_name_from-Kept (λ s. All (λ d. includes (names_of steps) d ≡ true) s.dependencies) steps
          [] step.name r (unfold get in tt) in
      ((subst (Kept _ step.name) k.0 kept).0, kept-AreRegistered sorted r k.1)

-- The map by name has the last step of each name.
get-by_name_from :
    (steps : List StartupStep) (m : Map String StartupStep) (k : String)
    → includes (names_of steps) k ≡ false
    → get (by_name_from m steps) k ≡ get m k
get-by_name_from [] m k new = refl
get-by_name_from (step ∷ steps) m k new =
    get-by_name_from steps (put m step.name step) k (ground arith)
    ∙ ground (arith, get-put m step.name step k)

-- Where no two steps have one name, the map has each step.
registered_kept :
    (steps : List StartupStep) (m : Map String StartupStep)
    → Distinct (names_of steps)
    → All (λ (s : StartupStep). get (by_name_from m steps) s.name ≡ some s) steps
registered_kept [] m d = tt
registered_kept (step ∷ steps) m d = (
  get-by_name_from steps (put m step.name step) step.name d.0
      ∙ ground (arith, get-put m step.name step step.name, beq_refl step.name),
  registered_kept steps (put m step.name step) d.1,
)

-- Among steps that the map has by their names, a step that the map has is found by its name.
Memᴰ-of_name :
    (m : Map String StartupStep) (sorted : List StartupStep) (step : StartupStep)
    → All (λ (s : StartupStep). get m s.name ≡ some s) sorted
    → get m step.name ≡ some step
    → includes (names_of sorted) step.name ≡ true
    → Memᴰ step sorted
Memᴰ-of_name m [] step kept e i = absurd cc
Memᴰ-of_name m (s ∷ sorted) step kept e i = elim (Bool-cases (s.name == step.name)) [
  | inl same ↦
      let name : s.name ≡ step.name = (string_eq.beq_iff s.name step.name).0 same in
      Memᴰ.head (some-injective _ _ (sym e ∙ ap (get m) (sym name) ∙ kept.0))
  | inr other ↦ Memᴰ.tail (Memᴰ-of_name m sorted step kept.1 e (ground arith))
]

All-Memᴰ :
    (m : Map String StartupStep) (sorted steps : List StartupStep)
    → All (λ (s : StartupStep). get m s.name ≡ some s) sorted
    → All (λ (s : StartupStep). get m s.name ≡ some s) steps
    → All (λ (s : StartupStep). includes (names_of sorted) s.name ≡ true) steps
    → All (λ s. Memᴰ s sorted) steps
All-Memᴰ m sorted [] kept e i = tt
All-Memᴰ m sorted (step ∷ steps) kept e i =
    (Memᴰ-of_name m sorted step kept e.0 i.0, All-Memᴰ m sorted steps kept e.1 i.1)

-- Where no two steps have one name, a rank shows that no step depends on itself, each dependency is
-- registered, and each `startup` succeeds: `start` starts the steps of the sort, in its order, each
-- registered step is among them, and the phase ends `running`.
pub start_succeeds :
    (now : ℕ) (steps sorted : List StartupStep) (rank : String → ℕ) (ts : List ℕ)
    → Distinct (names_of steps)
    → IsRanked rank steps
    → AreRegistered (names_of steps) steps
    → topological_sort steps ≡ some sorted
    → length sorted ≤ length ts
    → (s : Manager) × (start now (create_startup_manager steps) ≡ some s)
      × IsRunning (names_of sorted) (settle_all (map fulfilled ts) s)
      × All (λ s. Memᴰ s sorted) steps
unfolding start create_startup_manager
start_succeeds now steps sorted rank ts distinct ranked known sorts le =
    let o = topological_sort_ordered steps rank ranked in
    let same : o.0 ≡ sorted = some-injective _ _ (sym o.1 ∙ sorts) in
    let met =
      subst (Met []) same (Ordered-Met steps [] o.0 o.2 (kept-AreRegistered steps o.0 known o.3)) in
    (
      _,
      ap (begin now (create_startup_manager steps)) sorts,
      run_from-IsRunning sorted ts now _ met le,
      subst (λ sorted. All (λ s. Memᴰ s sorted) steps) same
          (All-Memᴰ (by_name_from [] steps) o.0 steps o.3 (registered_kept steps [] distinct) o.4),
    )
