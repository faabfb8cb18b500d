-- ===== src/Base/Unvisited.antt =====
-- How many of the given ids a search has not visited yet, which each visit makes fewer.
use Prim.Native.Nat.{ℕ, ◌≤◌, ◌<◌}
use Prim.Native.String.{String}
use mathlib.Core.Path.{◌≡◌}
use mathlib.Core.Bool.{true, false, not, ◌||◌}
use mathlib.Core.List.{List, [], ◌∷◌}
use native.Mathlib.Omega.{arith}
use agent_os.Base.Tests.{◌==◌, string_eq}
use agent_os.Base.Lists.{includes, includes-append, add, keep, length}

abbrev pub unvisited : List String → List String → ℕ
unvisited ids visited = length (keep (λ k. not (includes visited k)) ids)

pub includes-add :
    (visited : List String) (n k : String)
    → includes (add visited n) k ≡ (includes visited k || n == k)
includes-add visited n k = ground (arith, includes-append visited (n ∷ []) k, string_eq.beq_iff n k)

pub unvisited-add_le :
    (ids visited : List String) (n : String) → unvisited ids (add visited n) ≤ unvisited ids visited
unvisited-add_le [] visited n = omega arith
unvisited-add_le (k ∷ ids) visited n =
    ground (arith, unvisited-add_le ids visited n, includes-add visited n k)

pub unvisited-add_lt :
    (ids visited : List String) (n : String)
    → includes ids n ≡ true
    → includes visited n ≡ false
    → unvisited ids (add visited n) < unvisited ids visited
unvisited-add_lt [] visited n i v = cc
unvisited-add_lt (k ∷ ids) visited n i v = ground (
  arith,
  unvisited-add_lt ids visited n,
  unvisited-add_le ids visited n,
  includes-add visited n k,
  string_eq.beq_iff k n,
  string_eq.beq_iff n k,
)
