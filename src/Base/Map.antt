-- ===== src/Base/Map.antt =====
-- The source's `Map`: entries in the order of first insertion; a write to a present key keeps its
-- place.
use agent_os.Base.Tests.{Eq, ◌==◌, if◌then◌else◌}
use agent_os.Base.Lists.{includes, length}
use Prim.Native.Nat.{ℕ, ◌+◌}
use mathlib.Core.Path.{◌≡◌, refl}
use mathlib.Core.Bool.{Bool, true, false}
use mathlib.Core.List.{List, [], ◌∷◌, ◌++◌}
use mathlib.Core.Option.{Option, none, some}
use native.Mathlib.Omega.{arith}

abbrev pub Map {ℓ κ} : Type ℓ → Type κ → Type (ℓ ⊔ κ)
Map K V = List (K × V)

module _ {ℓ κ} {K : Type ℓ} {V : Type κ} where
  abbrev pub keys : Map K V → List K
  keys [] = []
  keys ((k, v) ∷ m) = k ∷ keys m

  abbrev pub values : Map K V → List V
  values [] = []
  values ((k, v) ∷ m) = v ∷ values m

  -- `Map.prototype.size`
  abbrev pub size : Map K V → ℕ
  size = length

abbrev pub is_some {ℓ} : {A : Type ℓ} → Option A → Bool
is_some none = false
is_some (some _) = true

module _ {ℓ κ} {K : Type ℓ} {V : Type κ} ⦃e : Eq K⦄ where
  unfoldable pub get : Map K V → K → Option V
  get [] k = none
  get ((j, v) ∷ m) k = if j == k then some v else get m k

  unfoldable pub put : Map K V → K → V → Map K V
  put [] k v = (k, v) ∷ []
  put ((j, w) ∷ m) k v = if j == k then (j, v) ∷ m else (j, w) ∷ put m k v

  unfoldable pub remove : Map K V → K → Map K V
  remove [] k = []
  remove ((j, v) ∷ m) k = let rest = remove m k in if j == k then rest else (j, v) ∷ rest

  abbrev pub has : Map K V → K → Bool
  has m k = is_some (get m k)

  pub get-put :
      (m : Map K V) (k : K) (v : V) (j : K)
      → get (put m k v) j ≡ (if k == j then some v else get m j)
  unfolding get put
  get-put [] k v j = refl
  get-put ((i, w) ∷ m) k v j =
      ground (arith, get-put m k v j, e.beq_iff i k, e.beq_iff i j, e.beq_iff k j)

  pub get-remove : (m : Map K V) (k j : K) → get (remove m k) j ≡ (if k == j then none else get m j)
  unfolding get remove
  get-remove [] k j = ground arith
  get-remove ((i, w) ∷ m) k j =
      ground (arith, get-remove m k j, e.beq_iff i k, e.beq_iff i j, e.beq_iff k j)

  pub has-includes : (m : Map K V) (k : K) → has m k ≡ includes (keys m) k
  unfolding get
  has-includes [] k = refl
  has-includes ((i, w) ∷ m) k = ground (arith, has-includes m k)

  -- A new key goes to the end.
  pub put_new : (m : Map K V) (k : K) (v : V) → get m k ≡ none → put m k v ≡ m ++ (k, v) ∷ []
  unfolding get put
  put_new [] k v h = refl
  put_new ((i, w) ∷ m) k v h = ground (arith, put_new m k v)

  -- A write to a present key leaves the keys, and their order.
  pub keys-put_old : (m : Map K V) (k : K) (v : V) → has m k ≡ true → keys (put m k v) ≡ keys m
  unfolding get put
  keys-put_old [] k v h = ground arith
  keys-put_old ((i, w) ∷ m) k v h = ground (arith, keys-put_old m k v)

  pub size-put :
      (m : Map K V) (k : K) (v : V) → size (put m k v) ≡ (if has m k then size m else size m + 1)
  unfolding get put
  size-put [] k v = refl
  size-put ((i, w) ∷ m) k v = ground (arith, size-put m k v)

pub ruleset map_laws = (get-put, get-remove)
