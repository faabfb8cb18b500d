-- ===== src/Plugins/Dependencies/Versions.antt =====
-- The version rules, against the ranges that their prefixes are to mean.
use agent_os.Base.{◌≤◌, ◌<◌, string_eq, true, ◌⊎◌, ◌≡◌, ◌↔◌, arith}
use agent_os.Plugins.Dependencies.{Version, Prefix, tilde, caret, matches_prefix, matches}

-- `v` comes no later than `w` in the order of releases.
abbrev pub NoLater : Version → Version → Type 0
NoLater v w =
    (v.major < w.major)
    ⊎ ((v.major ≡ w.major) × ((v.minor < w.minor) ⊎ ((v.minor ≡ w.minor) × (v.patch ≤ w.patch))))

abbrev pub SameRelease : Version → Version → Type 0
SameRelease v w = (v.major ≡ w.major) × (v.minor ≡ w.minor) × (v.patch ≡ w.patch)

-- What the prefixes are to mean: `^` from the required release to before the next major one, `~` to
-- before the next minor one, none the release itself.
abbrev pub Allows : Prefix → Version → Version → Type 0
Allows caret v w = NoLater v w × (w.major ≡ v.major)
Allows tilde v w = NoLater v w × (w.major ≡ v.major) × (w.minor ≡ v.minor)
Allows _ v w = SameRelease v w

-- A version matches exactly when it lies in the range of the prefix: under `^` the releases from the
-- required one on with its major number, under `~` those with its minor number too, and under no
-- prefix, and under `>`, `=` and `<`, the required release alone.
pub matches-Allows : (v w : Version) → (matches v w ≡ true) ↔ Allows v.prefix v w
unfolding matches
matches-Allows v w = go v.prefix
  where
    go : (p : Prefix) → (matches_prefix p v w ≡ true) ↔ Allows p v w
    go caret = (λ h. ground arith, λ h. ground arith)
    go tilde = (λ h. ground arith, λ h. ground arith)
    go _ = (λ h. ground arith, λ h. ground arith)
