-- ===== src/Plugins/Registry/Lookups.antt =====
-- Look-ups after the operations of the registry.
use agent_os.Base.{
  ℕ, ◌+◌, String, string_eq, some, ◌==◌, ◌≡◌, if◌then◌else◌, Result, ok, err, arith,
}
use agent_os.Base.Map.{put, get-put, get-remove, size-put}
use agent_os.Plugins.Types.{PluginManifest, PluginPhase, PluginRecord}
use agent_os.Plugins.Registry.{
  PluginRegistry, PluginError, register, unregister, create_record, update_phase, update_error,
  change, in_phase, with_error, get_plugin, count_plugins,
}

-- An update whose result is dropped.
abbrev pub updated : PluginRegistry → Result PluginError PluginRegistry → PluginRegistry
updated g (ok g') = g'
updated g (err e) = g

pub get-update_phase :
    (g : PluginRegistry) (id : String) (r : PluginRecord) (p : PluginPhase) (now : ℕ) (j : String)
    → get_plugin g id ≡ some r
    → get_plugin (updated g (update_phase id p now g)) j
      ≡ (if id == j then some (in_phase p now r) else get_plugin g j)
unfolding get_plugin update_phase change
get-update_phase g id r p now j h = rw h (get-put g.plugins id (in_phase p now r) j)

pub get-update_error :
    (g : PluginRegistry) (id : String) (r : PluginRecord) (message : String) (j : String)
    → get_plugin g id ≡ some r
    → get_plugin (updated g (update_error id message g)) j
      ≡ (if id == j then some (with_error message r) else get_plugin g j)
unfolding get_plugin update_error change
get-update_error g id r message j h = rw h (get-put g.plugins id (with_error message r) j)

-- After a plugin is registered, a look-up of its id finds its fresh record and every other look-up is
-- as before, and there is one plugin more.
pub register-get_plugin :
    (manifest : PluginManifest) (now : ℕ) (g g' : PluginRegistry) (j : String)
    → register manifest now g ≡ ok g'
    → (get_plugin g' j
        ≡ (if manifest.id == j then some (create_record manifest now) else get_plugin g j))
      × (count_plugins g' ≡ count_plugins g + 1)
unfolding register get_plugin count_plugins
register-get_plugin manifest now g g' j h = (
  ground (arith, get-put g.plugins manifest.id (create_record manifest now) j),
  ground (arith, size-put g.plugins manifest.id (create_record manifest now)),
)

-- A plugin that was registered and then removed is gone, and the other look-ups are as before both.
pub unregister-register :
    (manifest : PluginManifest) (now : ℕ) (g g' g'' : PluginRegistry) (j : String)
    → register manifest now g ≡ ok g'
    → unregister manifest.id g' ≡ ok g''
    → get_plugin g'' j ≡ get_plugin g j
unfolding register unregister get_plugin
unregister-register manifest now g g' g'' j h k = ground (
  arith,
  get-put g.plugins manifest.id (create_record manifest now) j,
  get-remove (put g.plugins manifest.id (create_record manifest now)) manifest.id j,
  string_eq.beq_iff manifest.id j,
)
