-- ===== src/Planning/Validator/Tests.antt =====
-- The theorems about validation at concrete plans.
use agent_os.Base.{Distinct, string_eq, String, List, [], ◌∷◌, some, ◌≡◌, ◌≢◌, refl, All}
use agent_os.Base.Map.{get, put}
use agent_os.Planning.Types.{PlanStep, PlanResult, PlanStatus}
use agent_os.Planning.Validator.{
  adjacency_from, PlanError, ids_of, validate_no_duplicate_ids, validate_dependencies_exist,
  validate_no_cycles, validate_tools_exist, validate_not_empty, validate_step_fields, validate_plan,
}
use agent_os.Planning.Validator.Walks.{IsCycle, validate_no_cycles-IsCycle}
use agent_os.Planning.Validator.Cycles.{validate_no_cycles_ends}
use agent_os.Planning.Validator.Checks.{AllKnown, HasTool, HasFields, validate_plan_valid}

abbrev step_of : String → List String → PlanStep
step_of id depends_on = record {
  id = id;
  title = "a step";
  description = "to do";
  tool = some "search";
  depends_on = depends_on;
  expected_result = "done";
  status = PlanStatus.draft;
}

abbrev plan_of : List PlanStep → PlanResult
plan_of steps = record {
  id = "p";
  steps = steps;
  dependencies = [];
  required_tools = "search" ∷ [];
  status = PlanStatus.draft;
}

-- Two steps that depend on each other.
abbrev cyclic : List PlanStep
cyclic = step_of "a" ("b" ∷ []) ∷ step_of "b" ("a" ∷ []) ∷ []

abbrev ordered : PlanResult
ordered = plan_of (step_of "a" [] ∷ step_of "b" ("a" ∷ []) ∷ [])

-- What the runs below compute with.
program : Unit {0}
unfolding get put validate_no_duplicate_ids validate_dependencies_exist validate_no_cycles
    validate_tools_exist validate_not_empty validate_step_fields validate_plan
program = tt

cyclic_found :
    validate_no_cycles cyclic ≡ some (PlanError.dependency_cycle ("a" ∷ "b" ∷ "a" ∷ []) ∷ [])
unfolding program
cyclic_found = refl

ordered_passes : validate_plan ordered ("search" ∷ []) ≡ some []
unfolding program
ordered_passes = refl

validate_no_cycles_ends_example :
    (errors : List PlanError) × (validate_no_cycles cyclic ≡ some errors)
validate_no_cycles_ends_example = validate_no_cycles_ends cyclic

validate_plan_valid_example :
    (ordered.steps ≢ [])
    × All HasFields ordered.steps
    × Distinct (ids_of ordered.steps)
    × AllKnown (ids_of ordered.steps) ordered.steps
    × All (λ (s : PlanStep). HasTool ("search" ∷ []) s.tool) ordered.steps
    × (validate_no_cycles ordered.steps ≡ some [])
validate_plan_valid_example = validate_plan_valid ordered ("search" ∷ []) ordered_passes

validate_no_cycles-IsCycle_example :
    All
      (IsCycle (adjacency_from [] cyclic))
      (PlanError.dependency_cycle ("a" ∷ "b" ∷ "a" ∷ []) ∷ [])
validate_no_cycles-IsCycle_example =
    validate_no_cycles-IsCycle cyclic (PlanError.dependency_cycle ("a" ∷ "b" ∷ "a" ∷ []) ∷ [])
      cyclic_found
