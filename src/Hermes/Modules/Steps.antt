-- ===== src/Hermes/Modules/Steps.antt =====
-- What a client sees of the registry: look-ups, and that no dependency is lost unnoticed.
use agent_os.Base.{
  ℕ, zero, suc, String, string_eq, Bool, true, false, not, List, [], ◌∷◌, map, Option, none, some,
  ◌==◌, ◌≡◌, ◌≢◌, ◌⊎◌, inl, inr, refl, ap, subst, if◌then◌else◌, includes, keep, length, get_elem?,
  ok, arith, All, All-append, Bool-cases,
}
use agent_os.Base.Map.{Map, get, put, has, get-put}
use agent_os.Hermes.Modules.{
  ModuleSpec, InternalRecord, Registry, degraded, name_of, new_record, insert_record,
  register_module, splice_one, degrade, remove_at, remove_found, is_empty, unregister_module,
  get_module, record_at,
}
use agent_os.Hermes.Modules.Positions.{index_of}
use agent_os.Hermes.Modules.Agreement.{IsWellFormed, has-remove_at}

-- The first record of a name.
unfoldable pub find : String → List InternalRecord → Option InternalRecord
find n [] = none
find n (r ∷ rs) = if name_of r == n then some r else find n rs

abbrev pub lookup_at : Option ℕ → List InternalRecord → Option InternalRecord
lookup_at none rs = none
lookup_at (some i) rs = get_elem? rs i

pub lookup_at-index_of :
    (n : String) (rs : List InternalRecord) → lookup_at (index_of n rs) rs ≡ find n rs
unfolding index_of find
lookup_at-index_of n [] = refl
lookup_at-index_of n (r ∷ rs) = ground (arith, lookup_at-index_of n rs)

-- In a well-formed registry a look-up by a non-empty name finds the first record of that name.
pub get_module-find :
    (n : String) (g : Registry) → IsWellFormed g → n ≢ "" → get_module n g ≡ ok (find n g.records)
unfolding get_module record_at
get_module-find n g w h =
    ground (arith, w.agrees n, lookup_at-index_of n g.records, string_eq.beq_iff n "")

-- Each dependency of the record is present, or the record is marked degraded.
abbrev pub Covered : (String → Bool) → InternalRecord → Type 0
Covered present r =
    (dep : String)
    → includes r.spec.dependencies dep ≡ true
    → (present dep ≡ true) ⊎ (r.health_status ≡ degraded)

abbrev pub IsCovered : Registry → Type 0
IsCovered g = All (Covered (has g.index_by_name)) g.records

All-Covered_mono :
    (p q : String → Bool) (rs : List InternalRecord)
    → ((d : String) → p d ≡ true → q d ≡ true)
    → All (Covered p) rs
    → All (Covered q) rs
All-Covered_mono p q [] h a = tt
All-Covered_mono p q (r ∷ rs) h a = (
  λ d i. elim (a.0 d i) [ inl there ↦ inl (h d there) | inr lost ↦ inr lost ],
  All-Covered_mono p q rs h a.1,
)

no_missing :
    (p : String → Bool) (ds : List String) (d : String)
    → is_empty (keep (λ x. not (p x)) ds) ≡ true
    → includes ds d ≡ true
    → p d ≡ true
no_missing p [] d e i = cc
no_missing p (x ∷ ds) d e i = ground (arith, no_missing p ds d, string_eq.beq_iff x d)

pub register_module-ok :
    (spec : ModuleSpec) (now : ℕ) (g g' : Registry)
    → register_module spec now g ≡ ok g'
    → (is_empty (keep (λ dep. not (has g.index_by_name dep)) spec.dependencies) ≡ true)
      × (insert_record spec now g ≡ g')
unfolding register_module
register_module-ok spec now g g' e = (ground arith, ground arith)

has-put :
    (m : Map String ℕ) (k : String) (v : ℕ) (d : String) → has m d ≡ true → has (put m k v) d ≡ true
has-put m k v d h = ground (arith, get-put m k v d)

insert_record-IsCovered :
    (spec : ModuleSpec) (now : ℕ) (g : Registry)
    → IsCovered g
    → is_empty (keep (λ dep. not (has g.index_by_name dep)) spec.dependencies) ≡ true
    → IsCovered (insert_record spec now g)
unfolding insert_record
insert_record-IsCovered spec now g c e =
    let there = has-put g.index_by_name spec.name (length g.records) in
    All-append (Covered (has (put g.index_by_name spec.name (length g.records)))) g.records
      (new_record spec now ∷ []) (All-Covered_mono _ _ g.records there c)
      (λ d i. inl (there d (no_missing (has g.index_by_name) spec.dependencies d e i)), tt)

-- A module is registered only when all of its dependencies are present; so registering keeps every
-- record covered.
pub register_module-IsCovered :
    (spec : ModuleSpec) (now : ℕ) (g g' : Registry)
    → IsCovered g
    → register_module spec now g ≡ ok g'
    → IsCovered g'
register_module-IsCovered spec now g g' c e =
    let (present, same) = register_module-ok spec now g g' e in
    subst IsCovered same (insert_record-IsCovered spec now g c present)

other_name :
    (ds : List String) (name d : String)
    → includes ds name ≡ false
    → includes ds d ≡ true
    → (name == d) ≡ false
other_name ds name d lost i = elim (Bool-cases (name == d)) [
  | inl t ↦ let e = (string_eq.beq_iff name d).0 t in cc (ap (includes ds) e)
  | inr f ↦ f
]

module _ (name : String) (p q : String → Bool)
    (kept : (d : String) → (name == d) ≡ false → p d ≡ true → q d ≡ true) where
  degrade-Covered : (r : InternalRecord) → Covered p r → Covered q (degrade name r)
  unfolding degrade
  degrade-Covered r c d i = elim (Bool-cases (includes r.spec.dependencies name)) [
    | inl lost ↦ inr (rw (lost, degrade))
    | inr other ↦ elim (c d (rw (other, degrade) at i)) [
      | inl there ↦
          inl
            (kept d (other_name r.spec.dependencies name d other (rw (other, degrade) at i)) there)
      | inr marked ↦ inr (rw (other, degrade) marked)
    ]
  ]

  All-degrade :
      (rs : List InternalRecord) → All (Covered p) rs → All (Covered q) (map (degrade name) rs)
  All-degrade [] a = tt
  All-degrade (r ∷ rs) a = (degrade-Covered r a.0, All-degrade rs a.1)

All-splice_one :
    (P : InternalRecord → Type 0) (i : ℕ) (rs : List InternalRecord)
    → All P rs
    → All P (splice_one i rs)
unfolding splice_one
All-splice_one P zero [] a = tt
All-splice_one P (suc i) [] a = tt
All-splice_one P zero (r ∷ rs) a = a.1
All-splice_one P (suc i) (r ∷ rs) a = (a.0, All-splice_one P i rs a.1)

remove_at-IsCovered :
    (name : String) (idx : ℕ) (g : Registry)
    → IsWellFormed g
    → IsCovered g
    → IsCovered (remove_at name idx g)
remove_at-IsCovered name idx g w c =
    let q = has (remove_at name idx g).index_by_name in
    unfold remove_at in
    All-degrade name (has g.index_by_name) q (λ d ne h. has-remove_at name d idx g w ne h)
      (splice_one idx g.records) (All-splice_one _ idx g.records c)

remove_found-ok :
    (name : String) (o : Option ℕ) (g g' : Registry)
    → remove_found name o g ≡ ok g'
    → (idx : ℕ) × (remove_at name idx g ≡ g')
unfolding remove_found
remove_found-ok name none g g' e = cc
remove_found-ok name (some idx) g g' e = (idx, ground arith)

unregister_module-ok :
    (name : String) (g g' : Registry)
    → unregister_module name g ≡ ok g'
    → (idx : ℕ) × (remove_at name idx g ≡ g')
unfolding unregister_module
unregister_module-ok name g g' e =
    remove_found-ok name (get g.index_by_name name) g g' (ground arith)

-- Removing a module from a well-formed registry leaves every record covered: whoever depended on it
-- is marked degraded, and no other dependency is lost.
pub unregister_module-IsCovered :
    (name : String) (g g' : Registry)
    → IsWellFormed g
    → IsCovered g
    → unregister_module name g ≡ ok g'
    → IsCovered g'
unregister_module-IsCovered name g g' w c e =
    let (idx, same) = unregister_module-ok name g g' e in
    subst IsCovered same (remove_at-IsCovered name idx g w c)
