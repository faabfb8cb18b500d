-- ===== src/Plugins/Dependencies/Validity.antt =====
-- What the results of the validator mean.
use agent_os.Base.{
  String, string_eq, Bool, true, false, ◌&&◌, List, [], ◌∷◌, ◌++◌, map, Option, none, some, ◌≡◌,
  refl, arith, every, sym, keep, if◌then◌else◌,
}
use mathlib.Core.List.{append-nil, append_assoc}
use agent_os.Plugins.Types.{PluginManifest, PluginDependency, PluginRecord}
use agent_os.Plugins.Registry.{PluginRegistry, get_plugin}
use agent_os.Plugins.Dependencies.{
  Version, version_matches, is_nil, Findings, check_found, check_dependencies,
  validate_plugin_dependencies,
}

is_nil-snoc {ℓ} : {A : Type ℓ} (xs : List A) (x : A) → is_nil (xs ++ x ∷ []) ≡ false
is_nil-snoc [] x = refl
is_nil-snoc (y ∷ xs) x = refl

module _ (parse : String → Option Version) (plugin : PluginManifest) (g : PluginRegistry) where
  abbrev pub is_missing : Option PluginRecord → Bool
  is_missing none = true
  is_missing (some r) = false

  -- The record of a dependency is there and its version matches.
  abbrev pub serves : PluginDependency → Option PluginRecord → Bool
  serves dep none = false
  serves dep (some r) = version_matches parse dep.version r.manifest.version

  abbrev pub is_served : PluginDependency → Bool
  is_served dep = serves dep (get_plugin g dep.id)

  missing-check_found :
      (d : PluginDependency) (o : Option PluginRecord) (f : Findings)
      → (check_found parse plugin d o f).missing
        ≡ f.missing ++ (if is_missing o then d.id ∷ [] else [])
  unfolding check_found
  missing-check_found d none f = refl
  missing-check_found d (some r) f = ground (arith, append-nil f.missing)

  missing-check_dependencies :
      (deps : List PluginDependency) (f : Findings)
      → (check_dependencies parse plugin g deps f).missing
        ≡ f.missing
          ++ map (λ (d : PluginDependency). d.id) (keep (λ d. is_missing (get_plugin g d.id)) deps)
  unfolding check_dependencies
  missing-check_dependencies [] f = sym (append-nil f.missing)
  missing-check_dependencies (d ∷ deps) f =
      let rest =
        map (λ (d : PluginDependency). d.id) (keep (λ d. is_missing (get_plugin g d.id)) deps) in
      ground (
        arith,
        missing-check_dependencies deps (check_found parse plugin d (get_plugin g d.id) f),
        missing-check_found d (get_plugin g d.id) f,
        append-nil f.missing,
        append_assoc f.missing (d.id ∷ []) rest,
      )

  abbrev empty : Findings → Bool
  empty f = is_nil f.missing && is_nil f.version_conflicts

  empty-check_found :
      (d : PluginDependency) (o : Option PluginRecord) (f : Findings)
      → empty (check_found parse plugin d o f) ≡ (empty f && serves d o)
  unfolding check_found
  empty-check_found d none f = ground (arith, is_nil-snoc f.missing d.id)
  empty-check_found d (some r) f = ground (
    arith,
    is_nil-snoc f.version_conflicts
        (record { plugin_id = plugin.id; required = d.version; available = r.manifest.version }),
  )

  empty-check_dependencies :
      (deps : List PluginDependency) (f : Findings)
      → empty (check_dependencies parse plugin g deps f) ≡ (empty f && every is_served deps)
  unfolding check_dependencies
  empty-check_dependencies [] f = ground arith
  empty-check_dependencies (d ∷ deps) f = ground (
    arith,
    empty-check_dependencies deps (check_found parse plugin d (get_plugin g d.id) f),
    empty-check_found d (get_plugin g d.id) f,
  )

  -- The result is valid exactly when each dependency of the plugin is registered with a version that
  -- matches; and it lists as missing the ids of the dependencies that are not registered, in order.
  pub validate_plugin_dependencies-valid :
      let result = validate_plugin_dependencies parse plugin g in
      (result.valid ≡ every is_served plugin.dependencies)
      × (result.missing
          ≡ map
              (λ (d : PluginDependency). d.id)
              (keep (λ d. is_missing (get_plugin g d.id)) plugin.dependencies))
  unfolding validate_plugin_dependencies
  validate_plugin_dependencies-valid = (
    empty-check_dependencies plugin.dependencies _,
    missing-check_dependencies plugin.dependencies _,
  )
