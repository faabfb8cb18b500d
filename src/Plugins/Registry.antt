-- ===== src/Plugins/Registry.antt =====
-- packages/plugins/src/PluginRegistry.ts. The clock's reading is the argument `now`. Handlers are
-- observers: `told` is what they are told.
pub mod Lookups
use agent_os.Base.{
  ℕ, String, string_eq, Bool, true, false, not, ◌||◌, List, [], ◌∷◌, ◌++◌, Option, none, some, ◌==◌,
  if◌then◌else◌, Result, ok, err,
}
use agent_os.Base.Map.{Map, get, put, remove, has, values, size}
use agent_os.Plugins.Types.{
  PluginManifest, PluginPhase, PluginRecord, plugin_phase_eq, PluginPhase-discrete, registered,
  running, stopped, disposed, failed,
}

pub data RegistryNotice : Type 0 where
  plugin_registered plugin_unregistered : String → RegistryNotice

pub record PluginRegistry : Type 0 where
  pub plugins : Map String PluginRecord
  pub told : List RegistryNotice

pub data PluginError : Type 0 where
  already_registered not_registered : String → PluginError
  unexpected_phase : (id : String) (expected got : PluginPhase) → PluginError
  forbidden : (id : String) (from to : PluginPhase) → PluginError
  action_failed : (message : String) → PluginError

unfoldable pub create_record : PluginManifest → ℕ → PluginRecord
create_record manifest now = record {
  manifest = manifest;
  phase = registered;
  registered_at = now;
  started_at = none;
  stopped_at = none;
  error = none;
}

unfoldable pub register : PluginManifest → ℕ → PluginRegistry → Result PluginError PluginRegistry
unfolding create_record
register manifest now g =
    if has g.plugins manifest.id
    then err (already_registered manifest.id)
    else ok (record {
      plugins = put g.plugins manifest.id (create_record manifest now);
      told = g.told ++ plugin_registered manifest.id ∷ [];
    })

unfoldable pub unregister : String → PluginRegistry → Result PluginError PluginRegistry
unregister id g =
    if not (has g.plugins id)
    then err (not_registered id)
    else ok (record { plugins = remove g.plugins id; told = g.told ++ plugin_unregistered id ∷ [] })

-- `list`, `get`, `has` and `count`
unfoldable pub list_plugins : PluginRegistry → List PluginRecord
list_plugins g = values g.plugins

unfoldable pub get_plugin : PluginRegistry → String → Option PluginRecord
get_plugin g id = get g.plugins id

unfoldable pub has_plugin : PluginRegistry → String → Bool
has_plugin g id = has g.plugins id

unfoldable pub count_plugins : PluginRegistry → ℕ
count_plugins g = size g.plugins

-- The record with the new phase and the times that go with it.
unfoldable pub in_phase : PluginPhase → ℕ → PluginRecord → PluginRecord
unfolding PluginPhase-discrete
in_phase phase now r = record r {
  phase = phase;
  started_at = if phase == running then some now else r.started_at;
  stopped_at = if phase == stopped || phase == disposed then some now else r.stopped_at;
}

change :
    Option PluginRecord
    → String
    → (PluginRecord → PluginRecord)
    → PluginRegistry
    → Result PluginError PluginRegistry
change none id f g = err (not_registered id)
change (some r) id f g = ok (record g { plugins = put g.plugins id (f r) })

unfoldable pub update_phase :
    String → PluginPhase → ℕ → PluginRegistry → Result PluginError PluginRegistry
unfolding change
update_phase id phase now g = change (get g.plugins id) id (in_phase phase now) g

unfoldable pub with_error : String → PluginRecord → PluginRecord
with_error error r = record r { phase = failed; error = some error }

unfoldable pub update_error : String → String → PluginRegistry → Result PluginError PluginRegistry
unfolding change
update_error id error g = change (get g.plugins id) id (with_error error) g
