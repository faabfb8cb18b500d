-- ===== src/Planning/Validator/Checks.antt =====
-- What a plan without errors satisfies.
use agent_os.Base.{
  Distinct, String, string_eq, Bool, true, false, not, List, [], ◌∷◌, ◌++◌, Option, none, some,
  ◌==◌, ◌≡◌, ◌≢◌, refl, ap, includes, add, All, arith,
}
use agent_os.Base.Unvisited.{includes-add}
use mathlib.Core.Option.{some-injective}
use agent_os.Planning.Types.{PlanStep, PlanResult}
use agent_os.Planning.Validator.{
  PlanError, complain, duplicates_from, validate_no_duplicate_ids, ids_of, unknown_among,
  unknown_from, validate_dependencies_exist, tool_errors, validate_tools_exist, validate_not_empty,
  validate_step_fields, validate_no_cycles, validate_plan, with_cycles, duplicate_id,
  unknown_dependency,
}

append-empty : (xs ys : List PlanError) → xs ++ ys ≡ [] → (xs ≡ []) × (ys ≡ [])
append-empty [] ys h = (refl, h)
append-empty (x ∷ xs) ys h = cc

complain-empty : (b : Bool) (e : PlanError) → complain b e ≡ [] → b ≡ false
complain-empty true e h = cc
complain-empty false e h = refl

-- Each dependency of each step is the id of a step.
abbrev pub AllKnown : List String → List PlanStep → Type 0
AllKnown ids = All (λ (s : PlanStep). All (λ d. includes ids d ≡ true) s.depends_on)

abbrev Outside : List String → List String → Type 0
Outside seen = All (λ id. includes seen id ≡ false)

Outside-add :
    (seen ids : List String) (a : String)
    → Outside (add seen a) ids
    → Outside seen ids × (includes ids a ≡ false)
Outside-add seen [] a h = (tt, refl)
Outside-add seen (id ∷ ids) a h =
    let (rest, apart) = Outside-add seen ids a h.1 in
    (
      (ground (arith, h.0, includes-add seen a id), rest),
      ground (
        arith,
        apart,
        h.0,
        includes-add seen a id,
        string_eq.beq_iff a id,
        string_eq.beq_iff id a,
      ),
    )

duplicates_from_sound :
    (seen : List String) (steps : List PlanStep)
    → duplicates_from seen steps ≡ []
    → Outside seen (ids_of steps) × Distinct (ids_of steps)
unfolding duplicates_from
duplicates_from_sound seen [] h = (tt, tt)
duplicates_from_sound seen (step ∷ steps) h =
    let (here, later) =
      append-empty (complain (includes seen step.id) (duplicate_id step.id)) _ h in
    let (outside, distinct) = duplicates_from_sound (add seen step.id) steps later in
    let (rest, apart) = Outside-add seen (ids_of steps) step.id outside in
    ((complain-empty _ _ here, rest), (apart, distinct))

unknown_among_sound :
    (ids : List String) (id : String) (deps : List String)
    → unknown_among ids id deps ≡ []
    → All (λ d. includes ids d ≡ true) deps
unfolding unknown_among
unknown_among_sound ids id [] h = tt
unknown_among_sound ids id (dep ∷ deps) h =
    let (here, later) =
      append-empty (complain (not (includes ids dep)) (unknown_dependency id dep)) _ h in
    (ground (arith, complain-empty _ _ here), unknown_among_sound ids id deps later)

unknown_from_sound :
    (ids : List String) (steps : List PlanStep) → unknown_from ids steps ≡ [] → AllKnown ids steps
unfolding unknown_from
unknown_from_sound ids [] h = tt
unknown_from_sound ids (step ∷ steps) h =
    let (here, later) = append-empty (unknown_among ids step.id step.depends_on) _ h in
    (unknown_among_sound ids step.id step.depends_on here, unknown_from_sound ids steps later)

-- A step names no tool, or one that is available.
abbrev pub HasTool : List String → Option String → Type 0
HasTool tools none = Unit
HasTool tools (some tool) = tool ≢ "" → includes tools tool ≡ true

tool_errors_sound :
    (tools : List String) (id : String) (tool : Option String)
    → tool_errors tools id tool ≡ []
    → HasTool tools tool
unfolding tool_errors
tool_errors_sound tools id none h = tt
tool_errors_sound tools id (some tool) h =
    λ named. ground (arith, complain-empty _ _ h, string_eq.beq_iff tool "")

validate_tools_exist_sound :
    (steps : List PlanStep) (tools : List String)
    → validate_tools_exist steps tools ≡ []
    → All (λ (s : PlanStep). HasTool tools s.tool) steps
unfolding validate_tools_exist
validate_tools_exist_sound [] tools h = tt
validate_tools_exist_sound (step ∷ steps) tools h =
    let (here, later) = append-empty (tool_errors tools step.id step.tool) _ h in
    (tool_errors_sound tools step.id step.tool here, validate_tools_exist_sound steps tools later)

abbrev pub HasFields : PlanStep → Type 0
HasFields s = (s.id ≢ "") × (s.title ≢ "") × (s.description ≢ "") × (s.expected_result ≢ "")

is_filled : (text : String) (e : PlanError) → complain (text == "") e ≡ [] → text ≢ ""
is_filled text e h empty = ground (arith, complain-empty _ _ h, string_eq.beq_iff text "")

validate_step_fields_sound :
    (steps : List PlanStep) → validate_step_fields steps ≡ [] → All HasFields steps
unfolding validate_step_fields
validate_step_fields_sound [] h = tt
validate_step_fields_sound (s ∷ steps) h =
    let (h4, later) = append-empty _ (validate_step_fields steps) h in
    let (h3, d) = append-empty _ (complain (s.expected_result == "") _) h4 in
    let (h2, c) = append-empty _ (complain (s.description == "") _) h3 in
    let (a, b) = append-empty (complain (s.id == "") _) (complain (s.title == "") _) h2 in
    (
      (
        is_filled s.id _ a,
        is_filled s.title _ b,
        is_filled s.description _ c,
        is_filled s.expected_result _ d,
      ),
      validate_step_fields_sound steps later,
    )

validate_not_empty_sound : (steps : List PlanStep) → validate_not_empty steps ≡ [] → steps ≢ []
unfolding validate_not_empty
validate_not_empty_sound [] h e = cc
validate_not_empty_sound (s ∷ steps) h e = cc

with_cycles-empty :
    (o : Option (List PlanError)) (before after : List PlanError)
    → with_cycles o before after ≡ some []
    → (before ≡ []) × (o ≡ some []) × (after ≡ [])
with_cycles-empty none before after h = cc
with_cycles-empty (some cycles) before after h =
    let (rest, c) = append-empty (before ++ cycles) after (some-injective _ _ h) in
    let (a, b) = append-empty before cycles rest in (a, ap some b, c)

-- A plan whose validation ends without errors has a step; its ids differ and each step has its
-- fields; each dependency is the id of a step of the plan, each tool that a step names is available,
-- and the search for cycles found none.
pub validate_plan_valid :
    (plan : PlanResult) (tools : List String)
    → validate_plan plan tools ≡ some []
    → (plan.steps ≢ [])
      × All HasFields plan.steps
      × Distinct (ids_of plan.steps)
      × AllKnown (ids_of plan.steps) plan.steps
      × All (λ (s : PlanStep). HasTool tools s.tool) plan.steps
      × (validate_no_cycles plan.steps ≡ some [])
unfolding validate_plan validate_no_duplicate_ids validate_dependencies_exist
validate_plan_valid plan tools h =
    let (before, cycles, tool) = with_cycles-empty (validate_no_cycles plan.steps) _ _ h in
    let (h2, d) = append-empty _ (validate_dependencies_exist plan.steps) before in
    let (h1, c) = append-empty _ (validate_no_duplicate_ids plan.steps) h2 in
    let (a, b) =
      append-empty (validate_not_empty plan.steps) (validate_step_fields plan.steps) h1 in
    (
      validate_not_empty_sound plan.steps a,
      validate_step_fields_sound plan.steps b,
      (duplicates_from_sound [] plan.steps c).1,
      unknown_from_sound (ids_of plan.steps) plan.steps d,
      validate_tools_exist_sound plan.steps tools tool,
      cycles,
    )
