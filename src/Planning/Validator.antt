-- ===== src/Planning/Validator.antt =====
-- packages/llm/src/planning/PlanningValidator.ts: the structural checks of a plan. An error is kept as
-- the values its text is built from. A set of the source is the list of its members. The depth-first
-- search takes fuel, one unit for each level of its recursion.
pub mod Cycles
pub mod Checks
pub mod Walks
mod Tests
use agent_os.Base.{
  ℕ, zero, suc, ◌+◌, String, string_eq, Bool, true, false, not, ◌&&◌, List, [], ◌∷◌, ◌++◌, map,
  Option, none, some, ◌==◌, if◌then◌else◌, includes, add, keep, length,
}
use agent_os.Base.Map.{Map, get, put, size}
use agent_os.Planning.Types.{PlanStep, PlanResult}

pub data PlanError : Type 0 where
  no_steps missing_id : PlanError
  missing_title missing_description missing_expected_result : (id : String) → PlanError
  duplicate_id : (id : String) → PlanError
  unknown_dependency : (id dep : String) → PlanError
  dependency_cycle : (cycle : List String) → PlanError
  unknown_tool : (id tool : String) → PlanError

abbrev complain : Bool → PlanError → List PlanError
complain true e = e ∷ []
complain false e = []

duplicates_from : List String → List PlanStep → List PlanError
duplicates_from seen [] = []
duplicates_from seen (step ∷ steps) =
    complain (includes seen step.id) (duplicate_id step.id)
    ++ duplicates_from (add seen step.id) steps

unfoldable pub validate_no_duplicate_ids : List PlanStep → List PlanError
unfolding duplicates_from
validate_no_duplicate_ids steps = duplicates_from [] steps

abbrev pub ids_of : List PlanStep → List String
ids_of steps = map (λ (s : PlanStep). s.id) steps

unknown_among : List String → String → List String → List PlanError
unknown_among ids id [] = []
unknown_among ids id (dep ∷ deps) =
    complain (not (includes ids dep)) (unknown_dependency id dep) ++ unknown_among ids id deps

unknown_from : List String → List PlanStep → List PlanError
unknown_from ids [] = []
unknown_from ids (step ∷ steps) =
    unknown_among ids step.id step.depends_on ++ unknown_from ids steps

unfoldable pub validate_dependencies_exist : List PlanStep → List PlanError
unfolding unknown_among unknown_from
validate_dependencies_exist steps = unknown_from (ids_of steps) steps

-- `adjacency`: of steps with the same id the last one counts.
pub adjacency_from : Map String (List String) → List PlanStep → Map String (List String)
adjacency_from m [] = m
adjacency_from m (step ∷ steps) = adjacency_from (put m step.id step.depends_on) steps

pub record Search : Type 0 where
  pub visited : List String
  pub in_stack : List String
  pub path : List String
  pub errors : List PlanError

-- `path.slice(path.indexOf(node))`, if the node is on the path.
pub from_first : String → List String → Option (List String)
from_first node [] = none
from_first node (x ∷ xs) = if x == node then some (x ∷ xs) else from_first node xs

-- `path.pop()`
drop_last : List String → List String
drop_last [] = []
drop_last (x ∷ []) = []
drop_last (x ∷ y ∷ xs) = x ∷ drop_last (y ∷ xs)

pub report_cycle : String → Option (List String) → Search → Search
report_cycle node none s = s
report_cycle node (some cycle) s = record s {
  errors = s.errors ++ dependency_cycle (cycle ++ node ∷ []) ∷ [];
}

pub enter : String → Search → Search
enter node s = record s {
  visited = add s.visited node;
  in_stack = add s.in_stack node;
  path = s.path ++ node ∷ [];
}

leave : String → Search → Search
leave node s = record s {
  in_stack = keep (λ x. not (x == node)) s.in_stack;
  path = drop_last s.path;
}

pub leave_found : String → Option Search → Option Search
leave_found node none = none
leave_found node (some s) = some (leave node s)

-- The loop over the neighbours of a node, or over the steps.
pub each : (String → Search → Option Search) → List String → Search → Option Search
each f [] s = some s
each f (node ∷ nodes) s = elim (f node s) [ none ↦ none | some s' ↦ each f nodes s' ]

abbrev pub neighbors : Option (List String) → List String
neighbors none = []
neighbors (some nodes) = nodes

-- Its answer, which no caller reads, is left out. `none` is that the fuel ran out.
pub dfs : Map String (List String) → ℕ → String → Search → Option Search
unfolding report_cycle from_first enter leave_found leave drop_last each
dfs adjacency zero node s = none
dfs adjacency (suc fuel) node s = elim (includes s.in_stack node) [
  | true ↦ some (report_cycle node (from_first node s.path) s)
  | false ↦ elim (includes s.visited node) [
    | true ↦ some s
    | false ↦
        leave_found node (each (dfs adjacency fuel) (neighbors (get adjacency node)) (enter node s))
  ]
]

-- The loop over the steps, which begins a search at each that was not visited.
pub search_from : Map String (List String) → ℕ → List PlanStep → Search → Option Search
search_from adjacency fuel [] s = some s
search_from adjacency fuel (step ∷ steps) s = elim (includes s.visited step.id) [
  | true ↦ search_from adjacency fuel steps s
  | false ↦ elim (dfs adjacency fuel step.id s) [
    | none ↦ none
    | some s' ↦ search_from adjacency fuel steps s'
  ]
]

abbrev errors_of : Option Search → Option (List PlanError)
errors_of none = none
errors_of (some s) = some s.errors

-- A level for each id, and one for an id that no step has.
unfoldable pub validate_no_cycles : List PlanStep → Option (List PlanError)
unfolding adjacency_from dfs search_from
validate_no_cycles steps =
    let adjacency = adjacency_from [] steps in
    errors_of (
      search_from adjacency (size adjacency + 1) steps
        (record { visited = []; in_stack = []; path = []; errors = [] }))

-- A tool that is the empty text counts as none.
tool_errors : List String → String → Option String → List PlanError
tool_errors tools id none = []
tool_errors tools id (some tool) =
    complain (not (tool == "") && not (includes tools tool)) (unknown_tool id tool)

-- The tools are given by their ids.
unfoldable pub validate_tools_exist : List PlanStep → List String → List PlanError
unfolding tool_errors
validate_tools_exist [] tools = []
validate_tools_exist (step ∷ steps) tools =
    tool_errors tools step.id step.tool ++ validate_tools_exist steps tools

unfoldable pub validate_not_empty : List PlanStep → List PlanError
validate_not_empty [] = no_steps ∷ []
validate_not_empty (step ∷ steps) = []

unfoldable pub validate_step_fields : List PlanStep → List PlanError
validate_step_fields [] = []
validate_step_fields (step ∷ steps) =
    complain (step.id == "") missing_id
    ++ complain (step.title == "") (missing_title step.id)
    ++ complain (step.description == "") (missing_description step.id)
    ++ complain (step.expected_result == "") (missing_expected_result step.id)
    ++ validate_step_fields steps

abbrev with_cycles :
    Option (List PlanError) → List PlanError → List PlanError → Option (List PlanError)
with_cycles none before after = none
with_cycles (some cycles) before after = some (before ++ cycles ++ after)

-- The `errors` of the result; its `valid` is that there is none.
unfoldable pub validate_plan : PlanResult → List String → Option (List PlanError)
validate_plan plan tools =
    with_cycles (validate_no_cycles plan.steps)
      (validate_not_empty plan.steps
        ++ validate_step_fields plan.steps
        ++ validate_no_duplicate_ids plan.steps
        ++ validate_dependencies_exist plan.steps)
      (validate_tools_exist plan.steps tools)
