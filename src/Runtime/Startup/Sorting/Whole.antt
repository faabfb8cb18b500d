-- ===== src/Runtime/Startup/Sorting/Whole.antt =====
-- The sort of all the startup's steps.
use agent_os.Runtime.Startup.{StartupStep, names_of, by_name_from, Sort, visit, topological_sort}
use agent_os.Runtime.Startup.Sorting.Total.{topological_sort_ends}
use agent_os.Runtime.Startup.Sorting.Order.{Settles, done, Ordered, VisitedAll}
use agent_os.Runtime.Startup.Sorting.Acyclic.{IsAcyclic, CanVisit, visit_each-Settles, visit-Good}
use agent_os.Base.{
  ℕ, ◌+◌, ◌<◌, String, string_eq, true, ◌||◌, List, [], ◌∷◌, Option, none, some, ◌==◌, ◌≡◌, ◌∙◌,
  subst, includes, All, arith, Bool-cases, inl, inr,
}
use agent_os.Base.Map.{Map, get, put, size, has, get-put}

module _ (P : StartupStep → Type 0) where
  -- What holds of a step that the map has at a name.
  abbrev pub Kept : String → Option StartupStep → Type 0
  Kept k none = Unit
  Kept k (some step) = P step × (step.name ≡ k)

  Kept-put :
      (m : Map String StartupStep) (step : StartupStep) (k : String)
      → P step
      → Kept k (get m k)
      → Kept k (get (put m step.name step) k)
  Kept-put m step k p h = rw (get-put m step.name step k) (elim (Bool-cases (step.name == k)) [
    | inl same ↦ rw same (p, ground (arith, string_eq.beq_iff step.name k))
    | inr other ↦ rw other h
  ])

  pub by_name_from-Kept :
      (steps : List StartupStep) (m : Map String StartupStep) (k : String)
      → All P steps
      → Kept k (get m k)
      → Kept k (get (by_name_from m steps) k)
  by_name_from-Kept [] m k p h = h
  by_name_from-Kept (step ∷ steps) m k p h =
      by_name_from-Kept steps (put m step.name step) k p.1 (Kept-put m step k p.0 h)

pub has-by_name_from :
    (steps : List StartupStep) (m : Map String StartupStep) (k : String)
    → has (by_name_from m steps) k ≡ (has m k || includes (names_of steps) k)
has-by_name_from [] m k = ground arith
has-by_name_from (step ∷ steps) m k =
    has-by_name_from steps (put m step.name step) k ∙ ground (arith, get-put m step.name step k)

-- Each step has a rank above the ranks of what it depends on, so that none depends on itself.
abbrev pub IsRanked : (String → ℕ) → List StartupStep → Type 0
IsRanked rank = All (λ (s : StartupStep). All (λ d. rank d < rank s.name) s.dependencies)

ranked-IsAcyclic :
    (rank : String → ℕ) (steps : List StartupStep)
    → IsRanked rank steps
    → IsAcyclic rank (by_name_from [] steps)
ranked-IsAcyclic rank steps h =
    let kept : (k : String)
        → Kept (λ s. All (λ d. rank d < rank s.name) s.dependencies) k
            (get (by_name_from [] steps) k) =
      λ k. by_name_from-Kept _ steps [] k h (unfold get in tt) in
    record {
      named = λ k step e. (subst (Kept _ k) e (kept k)).1;
      smaller = λ k step e.
          let r = subst (Kept _ k) e (kept k) in
          subst (λ n. All (λ d. rank d < rank n) step.dependencies) r.1 r.0;
    }

placed_steps :
    (m : Map String StartupStep) (s : Sort) (steps : List StartupStep)
    → ((k : String) → includes (names_of steps) k ≡ true → has m k ≡ true)
    → All (λ name. has m name ≡ true → done s name ≡ true) (names_of steps)
    → All (λ (step : StartupStep). done s step.name ≡ true) steps
placed_steps m s [] known p = tt
placed_steps m s (step ∷ steps) known p = (
  p.0 (known step.name (ground (arith, string_eq.beq_iff step.name step.name))),
  placed_steps m s steps (λ k h. known k (ground arith)) p.1,
)

abbrev nothing_visited : Sort
nothing_visited = record { visited = []; sorted = [] }

CanVisit-first :
    (m : Map String StartupStep) (rank : String → ℕ) (names : List String)
    → All (CanVisit m rank nothing_visited) names
CanVisit-first m rank [] = tt
CanVisit-first m rank (name ∷ names) = (λ k known v. absurd cc, CanVisit-first m rank names)

-- Where a rank shows that no step depends on itself, the sort ends with a list in which no name
-- stands twice, in which the steps are those that are kept by name and each registered name stands, and each step comes after all its dependencies that
-- are registered.
pub topological_sort_ordered :
    (steps : List StartupStep) (rank : String → ℕ)
    → IsRanked rank steps
    → (sorted : List StartupStep) × (topological_sort steps ≡ some sorted)
      × Ordered (by_name_from [] steps) [] sorted
      × All (λ (s : StartupStep). get (by_name_from [] steps) s.name ≡ some s) sorted
      × All (λ (s : StartupStep). includes (names_of sorted) s.name ≡ true) steps
topological_sort_ordered steps rank h =
    let m = by_name_from [] steps in
    let (s, ran, result) = topological_sort_ends steps in
    let acyclic = ranked-IsAcyclic rank steps h in
    let visited : VisitedAll m nothing_visited (names_of steps) s =
      subst (Settles (VisitedAll m nothing_visited (names_of steps))) ran (
        visit_each-Settles m rank (visit m (size m + 1)) (names_of steps) nothing_visited
          (visit-Good m rank (size m + 1) acyclic)
          (record { ordered = tt; visited = λ k d. d; kept = tt })
          (CanVisit-first m rank (names_of steps))) in
    (
      s.sorted,
      result,
      visited.sound.ordered,
      visited.sound.kept,
      placed_steps m s steps (λ k i. ground (arith, has-by_name_from steps [] k)) visited.placed,
    )
