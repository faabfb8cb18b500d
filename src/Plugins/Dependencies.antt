-- ===== src/Plugins/Dependencies.antt =====
-- packages/plugins/src/PluginDependencyValidator.ts. A version text is read by a regular expression
-- of the language's library: `parse` stands for what it yields, if it matches.
pub mod Versions
pub mod Validity
use agent_os.Base.{
  ℕ, ◌+◌, String, string_eq, nat_eq, Bool, true, false, not, ◌&&◌, ◌||◌, List, [], ◌∷◌, ◌++◌,
  Option, none, some, ◌==◌, ltb, leb, if◌then◌else◌, includes, add,
}
use agent_os.Plugins.Types.{PluginManifest, PluginDependency, PluginRecord}
use agent_os.Plugins.Registry.{PluginRegistry, get_plugin}

-- The optional first character: `~`, `^`, `>`, `=` or `<`.
pub data Prefix : Type 0 where
  no_prefix tilde caret greater equal less : Prefix

pub record Version : Type 0 where
  pub major : ℕ
  pub minor : ℕ
  pub patch : ℕ
  pub prefix : Prefix

unfoldable pub exactly : Version → Version → Bool
exactly req avail =
    req.major == avail.major && (req.minor == avail.minor && req.patch == avail.patch)

matches_prefix : Prefix → Version → Version → Bool
unfolding exactly
matches_prefix no_prefix req avail = exactly req avail
matches_prefix caret req avail =
    avail.major == req.major
    && (ltb req.minor avail.minor || (avail.minor == req.minor && leb req.patch avail.patch))
matches_prefix tilde req avail =
    avail.major == req.major && (avail.minor == req.minor && leb req.patch avail.patch)
matches_prefix _ req avail = exactly req avail

unfoldable pub matches : Version → Version → Bool
unfolding matches_prefix
matches req avail = matches_prefix req.prefix req avail

module _ (parse : String → Option Version) where
  matches_parsed : Option Version → Option Version → String → String → Bool
  matches_parsed (some req) (some avail) required available = matches req avail
  matches_parsed _ _ required available = required == available

  unfoldable pub version_matches : String → String → Bool
  unfolding matches_parsed
  version_matches required available =
      matches_parsed (parse required) (parse available) required available

pub record VersionConflict : Type 0 where
  pub plugin_id : String
  pub required : String
  pub available : String

-- `duplicates` and the lists; `valid` is that the lists are empty.
pub record DependencyResult : Type 0 where
  pub valid : Bool
  pub missing : List String
  pub duplicates : List String
  pub version_conflicts : List VersionConflict

abbrev pub is_nil {ℓ} : {A : Type ℓ} → List A → Bool
is_nil [] = true
is_nil (x ∷ xs) = false

pub record Findings : Type 0 where
  pub missing : List String
  pub version_conflicts : List VersionConflict

module _ (parse : String → Option Version) where
  -- What one dependency adds, by the record that the registry has for it.
  check_found : PluginManifest → PluginDependency → Option PluginRecord → Findings → Findings
  check_found plugin dep none f = record f { missing = f.missing ++ dep.id ∷ [] }
  check_found plugin dep (some r) f =
      if not (version_matches parse dep.version r.manifest.version)
      then record f {
        version_conflicts =
            f.version_conflicts
            ++ record {
              plugin_id = plugin.id;
              required = dep.version;
              available = r.manifest.version;
            }
              ∷ [];
      }
      else f

  -- The loop over the dependencies.
  check_dependencies : PluginManifest → PluginRegistry → List PluginDependency → Findings → Findings
  unfolding check_found
  check_dependencies plugin g [] f = f
  check_dependencies plugin g (dep ∷ deps) f =
      check_dependencies plugin g deps (check_found plugin dep (get_plugin g dep.id) f)

  unfoldable pub validate_plugin_dependencies : PluginManifest → PluginRegistry → DependencyResult
  unfolding check_dependencies
  validate_plugin_dependencies plugin g =
      let f =
        check_dependencies plugin g plugin.dependencies
          (record { missing = []; version_conflicts = [] }) in
      record {
        valid = is_nil f.missing && is_nil f.version_conflicts;
        missing = f.missing;
        duplicates = [];
        version_conflicts = f.version_conflicts;
      }

-- The loop of `detectDuplicateIds`.
duplicates_from : List String → List String → List PluginManifest → List String
duplicates_from seen duplicates [] = duplicates
duplicates_from seen duplicates (p ∷ ps) =
    duplicates_from (add seen p.id)
      (if includes seen p.id then duplicates ++ p.id ∷ [] else duplicates) ps

unfoldable pub detect_duplicate_ids : List PluginManifest → List String
unfolding duplicates_from
detect_duplicate_ids plugins = duplicates_from [] [] plugins

module _ (parse : String → Option Version) where
  -- The loop of `validateAllDependencies`.
  collect : PluginRegistry → List PluginManifest → Findings → Findings
  collect g [] f = f
  collect g (p ∷ ps) f =
      let r = validate_plugin_dependencies parse p g in
      collect g ps (record {
        missing = f.missing ++ r.missing;
        version_conflicts = f.version_conflicts ++ r.version_conflicts;
      })

  unfoldable pub validate_all_dependencies : List PluginManifest → PluginRegistry → DependencyResult
  unfolding collect
  validate_all_dependencies plugins g =
      let duplicates = detect_duplicate_ids plugins in
      let f = collect g plugins (record { missing = []; version_conflicts = [] }) in
      record {
        valid = is_nil duplicates && (is_nil f.missing && is_nil f.version_conflicts);
        missing = f.missing;
        duplicates = duplicates;
        version_conflicts = f.version_conflicts;
      }
