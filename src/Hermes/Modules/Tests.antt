-- ===== src/Hermes/Modules/Tests.antt =====
-- The theorems about the module registry at concrete registries.
use agent_os.Base.{
  none, ◌==◌, if◌then◌else◌, [], ◌∷◌, ◌≡◌, ◌≢◌, refl, arith, ok, true, false, String, string_eq,
}
use agent_os.Base.Map.{get, put, remove}
use agent_os.Hermes.Modules.{
  ModuleSpec, Registry, degraded, registered, unregistered, new_record, degrade, create_registry,
  register_module, unregister_module, get_module,
}
use agent_os.Hermes.Modules.Positions.{index_of}
use agent_os.Hermes.Modules.Agreement.{
  IsWellFormed, register_module-IsWellFormed, unregister_module-IsWellFormed,
}
use agent_os.Hermes.Modules.Lookups.{unregister_module-get_module}
use mathlib.Core.Option.{map as map_option}
use agent_os.Hermes.Modules.Steps.{
  find, IsCovered, get_module-find, register_module-IsCovered, unregister_module-IsCovered,
}

abbrev memory_spec : ModuleSpec
memory_spec = record { name = "memory"; version = "1.0.0"; dependencies = []; required = true }

abbrev planner_spec : ModuleSpec
planner_spec = record {
  name = "planner";
  version = "1.0.0";
  dependencies = "memory" ∷ [];
  required = false;
}

abbrev one_module : Registry
one_module = record {
  records = new_record memory_spec 5 ∷ [];
  index_by_name = ("memory", 0) ∷ [];
  told = registered (new_record memory_spec 5) ∷ [];
}

abbrev two_modules : Registry
two_modules = record {
  records = new_record memory_spec 5 ∷ new_record planner_spec 6 ∷ [];
  index_by_name = ("memory", 0) ∷ ("planner", 1) ∷ [];
  told = registered (new_record memory_spec 5) ∷ registered (new_record planner_spec 6) ∷ [];
}

-- The planner lost its dependency, and moved to the first place.
abbrev one_left : Registry
one_left = record {
  records = record (new_record planner_spec 6) { health_status = degraded } ∷ [];
  index_by_name = ("planner", 0) ∷ [];
  told =
      registered (new_record memory_spec 5)
      ∷ registered (new_record planner_spec 6)
      ∷ unregistered "memory"
      ∷ [];
}

-- What the runs below compute with.
program : Unit {0}
unfolding get put remove create_registry register_module unregister_module
program = tt

first : register_module memory_spec 5 create_registry ≡ ok one_module
unfolding program
first = refl

second : register_module planner_spec 6 one_module ≡ ok two_modules
unfolding program
second = refl

removal : unregister_module "memory" two_modules ≡ ok one_left
unfolding program
removal = refl

create_registry-IsWellFormed : IsWellFormed create_registry
unfolding program index_of
create_registry-IsWellFormed = record { agrees = λ n. refl; distinct = tt }

create_registry-IsCovered : IsCovered create_registry
unfolding program
create_registry-IsCovered = tt

register_module-IsWellFormed_example : IsWellFormed one_module
register_module-IsWellFormed_example =
    register_module-IsWellFormed memory_spec 5 create_registry one_module
      create_registry-IsWellFormed first

two_modules-IsWellFormed : IsWellFormed two_modules
two_modules-IsWellFormed =
    let one =
      register_module-IsWellFormed memory_spec 5 create_registry one_module
        create_registry-IsWellFormed first in
    register_module-IsWellFormed planner_spec 6 one_module two_modules one second

two_modules-IsCovered : IsCovered two_modules
two_modules-IsCovered =
    let one =
      register_module-IsCovered memory_spec 5 create_registry one_module create_registry-IsCovered
        first in
    register_module-IsCovered planner_spec 6 one_module two_modules one second

unregister_module-IsWellFormed_example : IsWellFormed one_left
unregister_module-IsWellFormed_example =
    unregister_module-IsWellFormed "memory" two_modules one_left two_modules-IsWellFormed removal

unregister_module-IsCovered_example : IsCovered one_left
unregister_module-IsCovered_example =
    unregister_module-IsCovered "memory" two_modules one_left two_modules-IsWellFormed
      two_modules-IsCovered removal

planner-ne : ◌≢◌ {A = String} "planner" ""
planner-ne e = ground (arith, string_eq.beq_iff "planner" "")

get_module-find_example : get_module "planner" two_modules ≡ ok (find "planner" two_modules.records)
get_module-find_example = get_module-find "planner" two_modules two_modules-IsWellFormed planner-ne

unregister_module-get_module_example :
    get_module "planner" one_left
    ≡ ok (
        if memory_spec.name == planner_spec.name
        then none
        else map_option (degrade "memory") (find "planner" two_modules.records))
unregister_module-get_module_example =
    unregister_module-get_module "memory" "planner" two_modules one_left two_modules-IsWellFormed
      removal planner-ne
