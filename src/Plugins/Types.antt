-- ===== src/Plugins/Types.antt =====
-- packages/plugins/src/types.ts: manifests, phases and their table. What a plugin's own methods do
-- is not the platform's; a call of one enters as its outcome.
use agent_os.Base.{ℕ, String, List, [], ◌∷◌, Option, Eq, eq_of_discrete}

pub record PluginDependency : Type 0 where
  pub id : String
  pub version : String

pub record PluginManifest : Type 0 where
  pub id : String
  pub name : String
  pub version : String
  pub dependencies : List PluginDependency

pub data PluginPhase : Type 0 where
  registered initializing initialized starting running stopping stopped disposed failed :
      PluginPhase

unfoldable pub PluginPhase-discrete : Discrete PluginPhase
PluginPhase-discrete = hlevel

instance abbrev pub plugin_phase_eq : Eq PluginPhase
plugin_phase_eq = eq_of_discrete PluginPhase-discrete

unfoldable pub plugin_terminal_phases : List PluginPhase
plugin_terminal_phases = stopped ∷ disposed ∷ failed ∷ []

unfoldable pub plugin_valid_transitions : PluginPhase → List PluginPhase
plugin_valid_transitions registered = initializing ∷ failed ∷ []
plugin_valid_transitions initializing = initialized ∷ failed ∷ []
plugin_valid_transitions initialized = starting ∷ stopping ∷ failed ∷ []
plugin_valid_transitions starting = running ∷ failed ∷ []
plugin_valid_transitions running = stopping ∷ failed ∷ []
plugin_valid_transitions stopping = stopped ∷ failed ∷ []
plugin_valid_transitions stopped = disposed ∷ failed ∷ []
plugin_valid_transitions disposed = []
plugin_valid_transitions failed = []

pub record PluginRecord : Type 0 where
  pub manifest : PluginManifest
  pub phase : PluginPhase
  pub registered_at : ℕ
  pub started_at : Option ℕ
  pub stopped_at : Option ℕ
  pub error : Option String
