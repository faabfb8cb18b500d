-- ===== src/Hermes/Modules.antt =====
-- packages/hermes/src/HermesModuleRegistry.ts. The registry keeps the records in an array and their
-- positions in a map, so its operations must keep the two in step. The functions of a spec are not
-- called by the registry and are left out, and so is the test that they are functions, which holds
-- of typed callers. Handlers are told on a later turn, of a copy, and touch no state: what they are
-- told is the `told` list. A module's text name is its key.
mod Positions
pub mod Agreement
pub mod Steps
pub mod Lookups
mod Tests
use agent_os.Base.{
  ℕ, zero, suc, ◌+◌, String, string_eq, Bool, true, false, not, List, [], ◌∷◌, ◌++◌, map, Option,
  none, some, ◌==◌, if◌then◌else◌, includes, keep, length, get_elem?, Result, ok, err,
}
use agent_os.Base.Map.{Map, get, put, remove, has}

pub data Health : Type 0 where
  healthy degraded failed unknown : Health

pub record ModuleSpec : Type 0 where
  pub name : String
  pub version : String
  pub dependencies : List String
  pub required : Bool

pub record InternalRecord : Type 0 where
  pub spec : ModuleSpec
  pub registered_at : ℕ
  pub health_status : Health

pub data Notice : Type 0 where
  registered : InternalRecord → Notice
  unregistered : String → Notice

pub record Registry : Type 0 where
  pub records : List InternalRecord
  pub index_by_name : Map String ℕ
  pub told : List Notice

pub data RegistryError : Type 0 where
  empty_name : RegistryError
  already_registered : String → RegistryError
  self_dependency : String → RegistryError
  unresolved : (name : String) (missing : List String) → RegistryError
  not_registered : String → RegistryError

unfoldable pub create_registry : Registry
create_registry = record { records = []; index_by_name = []; told = [] }

abbrev pub name_of : InternalRecord → String
name_of r = r.spec.name

abbrev pub new_record : ModuleSpec → ℕ → InternalRecord
new_record spec now = record { spec = spec; registered_at = now; health_status = unknown }

abbrev is_empty {ℓ} : {A : Type ℓ} → List A → Bool
is_empty [] = true
is_empty (x ∷ xs) = false

pub insert_record : ModuleSpec → ℕ → Registry → Registry
insert_record spec now g = record {
  records = g.records ++ new_record spec now ∷ [];
  index_by_name = put g.index_by_name spec.name (length g.records);
  told = g.told ++ registered (new_record spec now) ∷ [];
}

unfoldable pub register_module : ModuleSpec → ℕ → Registry → Result RegistryError Registry
unfolding insert_record
register_module spec now g =
    let missing = keep (λ dep. not (has g.index_by_name dep)) spec.dependencies in
    if spec.name == ""
    then err empty_name
    else if has g.index_by_name spec.name
    then err (already_registered spec.name)
    else if includes spec.dependencies spec.name
    then err (self_dependency spec.name)
    else if not (is_empty missing)
    then err (unresolved spec.name missing)
    else ok (insert_record spec now g)

-- `records.splice(idx, 1)`
pub splice_one : ℕ → List InternalRecord → List InternalRecord
splice_one i [] = []
splice_one zero (r ∷ rs) = rs
splice_one (suc i) (r ∷ rs) = r ∷ splice_one i rs

-- The loop that renumbers the records from position `i` on: `rs` are those that are left.
pub renumber : ℕ → List InternalRecord → Map String ℕ → Map String ℕ
renumber i [] index = index
renumber i (r ∷ rs) index = renumber (i + 1) rs (put index (name_of r) i)

pub drop_records : ℕ → List InternalRecord → List InternalRecord
drop_records zero rs = rs
drop_records (suc i) [] = []
drop_records (suc i) (r ∷ rs) = drop_records i rs

-- §5.5 step 2: whoever depended on the removed module is degraded.
pub degrade : String → InternalRecord → InternalRecord
degrade name r =
    if includes r.spec.dependencies name then record r { health_status = degraded } else r

pub remove_at : String → ℕ → Registry → Registry
unfolding splice_one renumber drop_records degrade
remove_at name idx g =
    let records = splice_one idx g.records in
    record {
      records = map (degrade name) records;
      index_by_name = renumber idx (drop_records idx records) (remove g.index_by_name name);
      told = g.told ++ unregistered name ∷ [];
    }

remove_found : String → Option ℕ → Registry → Result RegistryError Registry
remove_found name none g = err (not_registered name)
remove_found name (some idx) g = ok (remove_at name idx g)

unfoldable pub unregister_module : String → Registry → Result RegistryError Registry
unfolding remove_found remove_at
unregister_module name g =
    if name == "" then err empty_name else remove_found name (get g.index_by_name name) g

unfoldable pub has_module : String → Registry → Result RegistryError Bool
has_module name g = if name == "" then err empty_name else ok (has g.index_by_name name)

record_at : Option ℕ → Registry → Option InternalRecord
record_at none g = none
record_at (some idx) g = get_elem? g.records idx

-- `getModule` and `get`
unfoldable pub get_module : String → Registry → Result RegistryError (Option InternalRecord)
unfolding record_at
get_module name g =
    if name == "" then err empty_name else ok (record_at (get g.index_by_name name) g)

unfoldable pub module_count : Registry → ℕ
module_count g = length g.records

-- `clear` tells nobody.
unfoldable pub clear_registry : Registry → Registry
clear_registry g = record g { records = []; index_by_name = [] }
