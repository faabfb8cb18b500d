-- ===== src/Plugins/Lifecycle.antt =====
-- packages/plugins/src/PluginLifecycleManager.ts. A plugin's own method is called between two
-- updates; how it ends, an `Ending`, comes from outside. `initialize` calls none. Each update
-- takes the clock's reading `now`, one for a call. Handlers are observers, and do not throw: `moves`
-- is what they are told. Nothing else runs on the registry while a method is awaited.
pub mod Phases
use agent_os.Base.{
  ℕ, ◌-◌, String, string_eq, Bool, true, false, not, ◌&&◌, List, [], ◌∷◌, ◌++◌, Option, none, some,
  ◌==◌, if◌then◌else◌, includes, Result, ok, err,
}
use agent_os.Base.Map.{get, put}
use agent_os.Plugins.Types.{
  PluginPhase, PluginRecord, plugin_phase_eq, PluginPhase-discrete, registered, initializing,
  initialized, starting, running, stopping, stopped, disposed, failed, plugin_valid_transitions,
  plugin_terminal_phases,
}
use agent_os.Plugins.Registry.{
  PluginRegistry, PluginError, not_registered, unexpected_phase, forbidden, action_failed,
  update_phase, update_error, get_plugin, list_plugins,
}

pub data Action : Type 0 where
  initialize startup shutdown dispose : Action

-- A plugin's method endings, or returns a `Result`.
pub data Ending : Type 0 where
  threw : (message : String) → Ending
  returned : Result String (Unit {0}) → Ending

abbrev pub call : Action → Ending → Ending
call initialize e = returned (ok tt)
call _ e = e

pub record PhasePlan : Type 0 where
  pub expected_current : PluginPhase
  pub intermediate_phase : PluginPhase
  pub target_phase : PluginPhase

unfoldable pub phase_for_action : Action → PhasePlan
phase_for_action initialize = record {
  expected_current = registered;
  intermediate_phase = initializing;
  target_phase = initialized;
}
phase_for_action startup = record {
  expected_current = initialized;
  intermediate_phase = starting;
  target_phase = running;
}
phase_for_action shutdown = record {
  expected_current = running;
  intermediate_phase = stopping;
  target_phase = stopped;
}
phase_for_action dispose = record {
  expected_current = stopped;
  intermediate_phase = disposed;
  target_phase = disposed;
}

unfoldable pub can_move : PluginPhase → PluginPhase → Bool
unfolding plugin_valid_transitions PluginPhase-discrete
can_move from to = includes (plugin_valid_transitions from) to

pub record Move : Type 0 where
  pub plugin_id : String
  pub from : PluginPhase
  pub to : PluginPhase

pub record Manager : Type 0 where
  pub registry : PluginRegistry
  pub moves : List Move

-- `registry.updatePhase` and `registry.updateError`, whose results the manager drops.
abbrev pub after : PluginRegistry → Result PluginError PluginRegistry → PluginRegistry
after g (ok g') = g'
after g (err e) = g

move_to : String → PluginPhase → PluginPhase → ℕ → Manager → Manager
move_to id from to now m = record {
  registry = after m.registry (update_phase id to now m.registry);
  moves = m.moves ++ record { plugin_id = id; from = from; to = to } ∷ [];
}

fail_from : String → PluginPhase → String → Manager → Manager
fail_from id from message m = record {
  registry = after m.registry (update_error id message m.registry);
  moves = m.moves ++ record { plugin_id = id; from = from; to = failed } ∷ [];
}

-- The `try` and its `catch`. The `Result` that the method returns is dropped.
settle_action : String → PhasePlan → ℕ → Ending → Manager → Manager × Result PluginError (Unit {0})
unfolding move_to fail_from
settle_action id p now (returned result) m =
    (move_to id p.intermediate_phase p.target_phase now m, ok tt)
settle_action id p now (threw message) m =
    (fail_from id p.intermediate_phase message m, err (action_failed message))

run_found :
    Option PluginRecord
    → String
    → PhasePlan
    → ℕ
    → Ending
    → Manager
    → Manager × Result PluginError (Unit {0})
unfolding settle_action
run_found none id p now ending m = (m, err (not_registered id))
run_found (some r) id p now ending m =
    if not (r.phase == p.expected_current)
    then (m, err (unexpected_phase id p.expected_current r.phase))
    else if not (can_move r.phase p.intermediate_phase)
    then (m, err (forbidden id r.phase p.intermediate_phase))
    else settle_action id p now ending (move_to id r.phase p.intermediate_phase now m)

-- `initialize`, `startup`, `shutdown` and `dispose` of one plugin.
unfoldable pub execute_transition :
    String → Action → ℕ → Ending → Manager → Manager × Result PluginError (Unit {0})
unfolding run_found phase_for_action PluginPhase-discrete
execute_transition id action now ending m =
    run_found (get_plugin m.registry id) id (phase_for_action action) now (call action ending) m

abbrev add_ok : Result PluginError (Unit {0}) → String → List String → List String
add_ok (ok _) id results = results ++ id ∷ []
add_ok (err e) id results = results

-- The loop of `doForMatching` over the records that were listed before it; the predicate is that a
-- record's phase is the one that the action expects. `endings` tells how the method of each
-- plugin ends.
do_for_records :
    Action
    → (String → Ending)
    → ℕ
    → List PluginRecord
    → List String
    → Manager
    → Manager × List String
do_for_records action endings now [] results m = (m, results)
do_for_records action endings now (r ∷ rs) results m =
    let id = r.manifest.id in
    let (m', outcome) = execute_transition id action now (endings id) m in
    let rest = do_for_records action endings now rs (add_ok outcome id results) m' in
    let skip = do_for_records action endings now rs results m in
    if r.phase == (phase_for_action action).expected_current then rest else skip

-- `initializeAll`, `startupAll`, `shutdownAll` and `disposeAll`.
unfoldable pub run_all : Action → (String → Ending) → ℕ → Manager → Manager × List String
unfolding do_for_records phase_for_action PluginPhase-discrete
run_all action endings now m = do_for_records action endings now (list_plugins m.registry) [] m

pub record HealthReport : Type 0 where
  pub plugin_id : String
  pub phase : PluginPhase
  pub healthy : Bool
  pub error : Option String
  pub uptime_ms : Option ℕ

abbrev or_now : Option ℕ → ℕ → ℕ
or_now none now = now
or_now (some t) now = t

abbrev uptime : Option ℕ → Option ℕ → ℕ → Option ℕ
uptime none stopped_at now = none
uptime (some t) stopped_at now = some (or_now stopped_at now - t)

abbrev is_absent {ℓ} : {A : Type ℓ} → Option A → Bool
is_absent none = true
is_absent (some _) = false

report : Option PluginRecord → String → ℕ → HealthReport
report none id now = record {
  plugin_id = id;
  phase = failed;
  healthy = false;
  error = some "not registered";
  uptime_ms = none;
}
report (some r) id now = record {
  plugin_id = id;
  phase = r.phase;
  healthy = not (includes plugin_terminal_phases r.phase) && is_absent r.error;
  error = r.error;
  uptime_ms = uptime r.started_at r.stopped_at now;
}

unfoldable pub health : String → ℕ → Manager → HealthReport
unfolding report plugin_terminal_phases PluginPhase-discrete
health id now m = report (get_plugin m.registry id) id now
