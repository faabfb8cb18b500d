-- ===== src/Hermes/Modules/Positions.antt =====
-- The positions of records in the array of HermesModuleRegistry.ts, packages/hermes/src, and what a
-- registration or a removal does to them.
use agent_os.Base.{
  ℕ, zero, suc, ◌+◌, String, string_eq, Bool, true, false, List, [], ◌∷◌, ◌++◌, map, Option, none,
  some, ◌==◌, ◌≡◌, refl, ◌∙◌, ap, subst, if◌then◌else◌, length, arith,
}
use agent_os.Base.Map.{Map, get, put, get-put}
use agent_os.Hermes.Modules.{InternalRecord, name_of, splice_one, renumber, drop_records, degrade}

abbrev pub up : Option ℕ → Option ℕ
up none = none
up (some k) = some (k + 1)

-- The position of the first record of a name: what the map is to hold.
unfoldable pub index_of : String → List InternalRecord → Option ℕ
index_of n [] = none
index_of n (r ∷ rs) = if name_of r == n then some 0 else up (index_of n rs)

abbrev pub Distinct : List InternalRecord → Type 0
Distinct [] = Unit
Distinct (r ∷ rs) = (index_of (name_of r) rs ≡ none) × Distinct rs

abbrev pub or_at : Option ℕ → Option ℕ → Option ℕ
or_at none o = o
or_at (some k) o = some k

abbrev pub plus : ℕ → Option ℕ → Option ℕ
plus i none = none
plus i (some k) = some (i + k)

pub index_of-snoc :
    (n : String) (rs : List InternalRecord) (r : InternalRecord)
    → index_of n (rs ++ r ∷ [])
      ≡ or_at (index_of n rs) (if name_of r == n then some (length rs) else none)
unfolding index_of
index_of-snoc n [] r = ground arith
index_of-snoc n (q ∷ rs) r = ground (arith, index_of-snoc n rs r)

pub Distinct-snoc :
    (rs : List InternalRecord) (r : InternalRecord)
    → Distinct rs
    → index_of (name_of r) rs ≡ none
    → Distinct (rs ++ r ∷ [])
unfolding index_of
Distinct-snoc [] r d h = (refl, tt)
Distinct-snoc (q ∷ rs) r d h = (
  ground (
    arith,
    index_of-snoc (name_of q) rs r,
    string_eq.beq_iff (name_of r) (name_of q),
    string_eq.beq_iff (name_of q) (name_of r),
  ),
  Distinct-snoc rs r d.1 (ground arith),
)

-- A renumbered name gets its place counted from the start; the others keep theirs.
pub get-renumber :
    (i : ℕ) (rs : List InternalRecord) (m : Map String ℕ) (n : String)
    → Distinct rs
    → get (renumber i rs m) n ≡ or_at (plus i (index_of n rs)) (get m n)
unfolding renumber index_of
get-renumber i [] m n d = refl
get-renumber i (r ∷ rs) m n d = ground (
  arith,
  get-renumber (i + 1) rs (put m (name_of r) i) n d.1,
  get-put m (name_of r) i n,
  string_eq.beq_iff (name_of r) n,
)

pub index_of-degrade :
    (name n : String) (rs : List InternalRecord)
    → index_of n (map (degrade name) rs) ≡ index_of n rs
unfolding index_of degrade
index_of-degrade name n [] = refl
index_of-degrade name n (r ∷ rs) = ground (arith, index_of-degrade name n rs)

name_of-degrade : (name : String) (r : InternalRecord) → name_of (degrade name r) ≡ name_of r
unfolding degrade
name_of-degrade name r = ground arith

pub Distinct-degrade :
    (name : String) (rs : List InternalRecord) → Distinct rs → Distinct (map (degrade name) rs)
Distinct-degrade name [] d = tt
Distinct-degrade name (r ∷ rs) d = (
  rw (name_of-degrade name r) (index_of-degrade name (name_of r) rs ∙ d.0),
  Distinct-degrade name rs d.1,
)

index_of-splice_none :
    (n : String) (i : ℕ) (rs : List InternalRecord)
    → index_of n rs ≡ none
    → index_of n (splice_one i rs) ≡ none
unfolding index_of splice_one
index_of-splice_none n i [] h = ground arith
index_of-splice_none n zero (r ∷ rs) h = ground arith
index_of-splice_none n (suc i) (r ∷ rs) h = ground (arith, index_of-splice_none n i rs)

pub Distinct-splice_one :
    (i : ℕ) (rs : List InternalRecord) → Distinct rs → Distinct (splice_one i rs)
unfolding splice_one
Distinct-splice_one zero [] d = tt
Distinct-splice_one (suc i) [] d = tt
Distinct-splice_one zero (r ∷ rs) d = d.1
Distinct-splice_one (suc i) (r ∷ rs) d =
    (index_of-splice_none (name_of r) i rs d.0, Distinct-splice_one i rs d.1)

pub Distinct-drop_records :
    (i : ℕ) (rs : List InternalRecord) → Distinct rs → Distinct (drop_records i rs)
unfolding drop_records
Distinct-drop_records zero rs d = d
Distinct-drop_records (suc i) [] d = tt
Distinct-drop_records (suc i) (r ∷ rs) d = Distinct-drop_records i rs d.1

head_case :
    (x : Option ℕ) (b : Bool)
    → (b ≡ true → x ≡ none)
    → or_at (plus 0 x) (if b then none else (if b then some 0 else up x)) ≡ x
head_case none true h = refl
head_case none false h = refl
head_case (some k) b h = refl_plus
  where
    refl_plus : some (0 + k) ≡ some k
    refl_plus = ap some (omega arith)

tail_case :
    (x o s : Option ℕ) (b c : Bool) (i : ℕ)
    → or_at (plus i x) (if b then none else o) ≡ s
    → (c ≡ true → (b ≡ false) × (s ≡ none))
    → or_at (plus (suc i) x) (if b then none else (if c then some 0 else up o))
      ≡ (if c then some 0 else up s)
tail_case none o s true true i e h = let f = (h refl).0 in cc f
tail_case none o s true false i e h = ap up e
tail_case none o s false true i e h = refl
tail_case none o s false false i e h = ap up e
tail_case (some k) o s b true i e h = cc (e, (h refl).1)
tail_case (some k) o s b false i e h = rw (← e) (ap some (omega arith))

pub index_of-head :
    (name : String) (i : ℕ) (r : InternalRecord) (rs : List InternalRecord)
    → index_of name (r ∷ rs) ≡ some (suc i)
    → ((name_of r == name) ≡ false) × (index_of name rs ≡ some i)
unfolding index_of
index_of-head name i r rs h = (ground arith, ground arith)

pub index_of-found :
    (name : String) (r : InternalRecord) (rs : List InternalRecord)
    → index_of name (r ∷ rs) ≡ some 0
    → name_of r ≡ name
unfolding index_of
index_of-found name r rs h = ground (arith, string_eq.beq_iff (name_of r) name)

-- Where the records after a removal stand, told by where the later ones stand.
pub index_of-splice_one :
    (name n : String) (i : ℕ) (rs : List InternalRecord)
    → Distinct rs
    → index_of name rs ≡ some i
    → or_at
        (plus i (index_of n (drop_records i (splice_one i rs))))
        (if name == n then none else index_of n rs)
      ≡ index_of n (splice_one i rs)
unfolding index_of splice_one drop_records
index_of-splice_one name n i [] d h = cc
index_of-splice_one name n zero (r ∷ rs) d h =
    let e = index_of-found name r rs h in
    rw e (
      head_case (index_of n rs) (name == n) (λ b.
        let e' = (string_eq.beq_iff name n).0 b in subst (λ z. index_of z rs ≡ none) (e ∙ e') d.0))
index_of-splice_one name n (suc i) (r ∷ rs) d h =
    let (ne, h') = index_of-head name i r rs h in
    tail_case (index_of n (drop_records i (splice_one i rs))) (index_of n rs)
      (index_of n (splice_one i rs)) (name == n) (name_of r == n) i
      (index_of-splice_one name n i rs d.1 h')
      (λ c.
        let e = (string_eq.beq_iff (name_of r) n).0 c in
        (
          ground (arith, e, string_eq.beq_iff name n, string_eq.beq_iff (name_of r) name),
          index_of-splice_none n i rs (subst (λ z. index_of z rs ≡ none) e d.0),
        ))
