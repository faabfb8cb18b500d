-- ===== src/Plugins/Tests.antt =====
-- The theorems about the plugin platform at concrete registries.
use agent_os.Base.{
  String, [], ◌∷◌, ◌≡◌, ◌≢◌, refl, ok, err, some, none, Option, true, ◌==◌, string_eq,
  if◌then◌else◌, every, ◌↔◌,
}
use agent_os.Base.Map.{get, put, remove}
use agent_os.Plugins.Types.{
  PluginManifest, PluginRecord, PluginPhase, initialized, stopped, registered, running,
}
use agent_os.Plugins.Registry.{
  PluginRegistry, plugin_registered, plugin_unregistered, register, unregister, get_plugin,
  create_record,
}
use agent_os.Plugins.Registry.Lookups.{unregister-register}
use agent_os.Plugins.Lifecycle.{
  startup, dispose, threw, returned, Manager, phase_for_action, execute_transition,
}
use agent_os.Plugins.Lifecycle.Phases.{
  AllLegal, phase_of, end_phase, execute_transition-phase, execute_transition-moves,
  execute_transition-dispose_illegal, execute_transition-returned,
}
use agent_os.Plugins.Dependencies.{Version, caret, no_prefix, matches, validate_plugin_dependencies}
use agent_os.Plugins.Dependencies.Versions.{Allows, matches-Allows}
use agent_os.Plugins.Dependencies.Validity.{is_served, validate_plugin_dependencies-valid}

abbrev base_manifest : PluginManifest
base_manifest = record { id = "base"; name = "Base"; version = "1.4.0"; dependencies = [] }

abbrev chat_manifest : PluginManifest
chat_manifest = record {
  id = "chat";
  name = "Chat";
  version = "0.1.0";
  dependencies =
      record { id = "base"; version = "^1.2.0" } ∷ record { id = "voice"; version = "1.0.0" } ∷ [];
}

abbrev no_plugins : PluginRegistry
no_plugins = record { plugins = []; told = [] }

abbrev record_in : PluginPhase → PluginRecord
record_in phase = record {
  manifest = base_manifest;
  phase = phase;
  registered_at = 5;
  started_at = none;
  stopped_at = none;
  error = none;
}

abbrev base_only : PluginPhase → PluginRegistry
base_only phase = record {
  plugins = ("base", record_in phase) ∷ [];
  told = plugin_registered "base" ∷ [];
}

abbrev removed : PluginRegistry
removed = record { plugins = []; told = plugin_registered "base" ∷ plugin_unregistered "base" ∷ [] }

abbrev manager_in : PluginPhase → Manager
manager_in phase = record { registry = base_only phase; moves = [] }

-- What the runs below compute with.
program : Unit {0}
unfolding get put remove register unregister get_plugin create_record phase_for_action
program = tt

registering : register base_manifest 5 no_plugins ≡ ok (base_only registered)
unfolding program
registering = refl

removing : unregister "base" (base_only registered) ≡ ok removed
unfolding program
removing = refl

found : (phase : PluginPhase) → get_plugin (base_only phase) "base" ≡ some (record_in phase)
unfolding program
found phase = refl

ready : (record_in initialized).phase ≡ (phase_for_action startup).expected_current
unfolding program
ready = refl

unregister-register_example : get_plugin removed "base" ≡ get_plugin no_plugins "base"
unregister-register_example =
    unregister-register base_manifest 5 no_plugins (base_only registered) removed "base" registering
      removing

execute_transition-phase_example :
    phase_of (
      get_plugin
        (execute_transition "base" startup 9
          (threw "port in use")
          (manager_in initialized)).0.registry
        "base")
    ≡ some PluginPhase.failed
unfolding end_phase
execute_transition-phase_example =
    execute_transition-phase "base" startup 9 (threw "port in use") (manager_in initialized)
      (record_in initialized) "base" (found initialized) ready

startup_ne : startup ≢ dispose
startup_ne e = cc

execute_transition-moves_example :
    AllLegal
      (execute_transition "base" startup 9 (threw "port in use") (manager_in initialized)).0.moves
execute_transition-moves_example =
    execute_transition-moves "base" startup 9 (threw "port in use") (manager_in initialized)
      startup_ne tt

execute_transition-dispose_illegal_example :
    ¬ AllLegal (execute_transition "base" dispose 9 (returned (ok tt)) (manager_in stopped)).0.moves
execute_transition-dispose_illegal_example =
    execute_transition-dispose_illegal "base" 9 (returned (ok tt)) (manager_in stopped)
      (record_in stopped) (found stopped) refl

execute_transition-returned_example :
    execute_transition "base" startup 9 (returned (err "no port")) (manager_in initialized)
    ≡ execute_transition "base" startup 9 (returned (ok tt)) (manager_in initialized)
execute_transition-returned_example =
    execute_transition-returned "base" startup 9 (err "no port") (ok tt) (manager_in initialized)

abbrev required_version : Version
required_version = record { major = 1; minor = 2; patch = 0; prefix = caret }

abbrev available_version : Version
available_version = record { major = 1; minor = 4; patch = 0; prefix = no_prefix }

matches-Allows_example :
    (matches required_version available_version ≡ true)
    ↔ Allows caret required_version available_version
matches-Allows_example = matches-Allows required_version available_version

-- A reader of the two texts that the registries below hold.
abbrev read : String → Option Version
read s =
    if s == "^1.2.0"
    then some required_version
    else if s == "1.4.0"
    then some available_version
    else none

validate_plugin_dependencies-valid_example :
    (validate_plugin_dependencies read chat_manifest (base_only running)).valid
    ≡ every (is_served read chat_manifest (base_only running)) chat_manifest.dependencies
validate_plugin_dependencies-valid_example =
    (validate_plugin_dependencies-valid read chat_manifest (base_only running)).0
