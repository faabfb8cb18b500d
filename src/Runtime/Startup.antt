-- ===== src/Runtime/Startup.antt =====
-- packages/runtime/src/StartupManager.ts: the steps of the startup, sorted by what they depend on,
-- and one call of `start`. Between two `await`s the manager runs on its own: what settles an
-- `await`, and the timer, are events. The logger only observes.
pub mod Sorting
pub mod Run
use agent_os.Base.{
  ℕ, zero, suc, ◌+◌, ◌-◌, String, string_eq, Bool, true, false, not, List, [], ◌∷◌, ◌++◌, map,
  reverse, Option, none, some, ◌==◌, if◌then◌else◌, includes, add, keep,
}
use agent_os.Base.Map.{Map, get, put, size}

-- The functions of a step are answered by events; a step need not have a `rollback`.
pub record StartupStep : Type 0 where
  pub name : String
  pub dependencies : List String
  pub has_rollback : Bool

abbrev pub names_of : List StartupStep → List String
names_of steps = map (λ (s : StartupStep). s.name) steps

-- `new Map(steps.map((s) => [s.name, s]))`
abbrev pub by_name_from : Map String StartupStep → List StartupStep → Map String StartupStep
by_name_from m [] = m
by_name_from m (s ∷ steps) = by_name_from (put m s.name s) steps

pub record Sort : Type 0 where
  pub visited : List String
  pub sorted : List StartupStep

abbrev pub mark : String → Sort → Sort
mark name s = record s { visited = add s.visited name }

abbrev pub push : StartupStep → Option Sort → Option Sort
push step none = none
push step (some s) = some (record s { sorted = s.sorted ++ step ∷ [] })

-- The loop over the dependencies of a step, or over the steps.
abbrev pub visit_each : (String → Sort → Option Sort) → List String → Sort → Option Sort
visit_each f [] s = some s
visit_each f (name ∷ names) s = elim (f name s) [ none ↦ none | some s' ↦ visit_each f names s' ]

-- What `visit` does with a name that was not visited.
abbrev pub visit_new :
    (String → Sort → Option Sort) → String → Option StartupStep → Sort → Option Sort
visit_new f name none s = some (mark name s)
visit_new f name (some step) s = push step (visit_each f step.dependencies (mark name s))

-- `none` is that the fuel, one unit for each level of the recursion, ran out.
unfoldable pub visit : Map String StartupStep → ℕ → String → Sort → Option Sort
visit m zero name s = none
visit m (suc fuel) name s = elim (includes s.visited name) [
  | true ↦ some s
  | false ↦ visit_new (visit m fuel) name (get m name) s
]

abbrev pub sorted_of : Option Sort → Option (List StartupStep)
sorted_of none = none
sorted_of (some s) = some s.sorted

-- A level for each name, and one for a name that no step has.
unfoldable pub topological_sort : List StartupStep → Option (List StartupStep)
unfolding visit
topological_sort steps =
    let by_name = by_name_from [] steps in
    sorted_of (
      visit_each (visit by_name (size by_name + 1)) (names_of steps)
        (record { visited = []; sorted = [] }))
