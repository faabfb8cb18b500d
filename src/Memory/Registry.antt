-- ===== src/Memory/Registry.antt =====
-- packages/memory/src/MemoryRegistry.ts: the memory providers by their ids, one of them the default.
-- A provider is of any type `P`. A throw is an error.
pub mod Default
use agent_os.Base.{
  ℕ, String, string_eq, nat_eq, Bool, true, false, not, ◌&&◌, List, [], ◌∷◌, Option, none, some,
  ◌==◌, if◌then◌else◌, Result, ok, err,
}
use agent_os.Base.Map.{Map, get, put, remove, has, keys, values, size, is_some}

pub data RegistryError : Type 0 where
  already_registered not_registered : String → RegistryError

pub record Registry (P : Type 0) : Type 0 where
  pub providers : Map String P
  pub default_provider_id : Option String

-- A call of a method that changes the registry.
pub data Operation (P : Type 0) : Type 0 where
  add : String → P → Operation P
  drop choose : String → Operation P
  clear : Operation P

abbrev pub first_key : {P : Type 0} → Map String P → Option String
first_key [] = none
first_key ((id, p) ∷ m) = some id

pub is_default : Option String → String → Bool
is_default none id = false
is_default (some d) id = d == id

abbrev pub find_default : {P : Type 0} → Option String → Map String P → Option P
find_default none m = none
find_default (some id) m = get m id

module _ {P : Type 0} where
  unfoldable pub empty_registry : Registry P
  empty_registry = record { providers = []; default_provider_id = none }

  unfoldable pub register : String → P → Registry P → Result RegistryError (Registry P)
  register id p s =
      let providers = put s.providers id p in
      if has s.providers id
      then err (already_registered id)
      else ok (record {
        providers = providers;
        default_provider_id = if size providers == 1 then some id else s.default_provider_id;
      })

  -- The registry after it, and whether the provider was there.
  unfoldable pub unregister : String → Registry P → Registry P × Bool
  unfolding is_default
  unregister id s =
      let removed = has s.providers id in
      let providers = remove s.providers id in
      (
        record {
          providers = providers;
          default_provider_id =
              if removed && is_default s.default_provider_id id
              then first_key providers
              else s.default_provider_id;
        },
        removed,
      )

  unfoldable pub get_provider : Registry P → String → Option P
  get_provider s id = get s.providers id

  unfoldable pub get_default : Registry P → Option P
  get_default s = find_default s.default_provider_id s.providers

  unfoldable pub set_default : String → Registry P → Result RegistryError (Registry P)
  set_default id s =
      if not (has s.providers id)
      then err (not_registered id)
      else ok (record s { default_provider_id = some id })

  unfoldable pub list_providers : Registry P → List P
  list_providers s = values s.providers

  unfoldable pub has_provider : Registry P → String → Bool
  has_provider s id = has s.providers id

  unfoldable pub clear_providers : Registry P → Registry P
  clear_providers s = record { providers = []; default_provider_id = none }

  abbrev pub or_same : Registry P → Result RegistryError (Registry P) → Registry P
  or_same s (err e) = s
  or_same s (ok t) = t

  -- A throw changes nothing.
  unfoldable pub apply : Operation P → Registry P → Registry P
  apply (add id p) s = or_same s (register id p s)
  apply (drop id) s = (unregister id s).0
  apply (choose id) s = or_same s (set_default id s)
  apply clear s = clear_providers s

  unfoldable pub apply_all : List (Operation P) → Registry P → Registry P
  apply_all [] s = s
  apply_all (o ∷ os) s = apply_all os (apply o s)
