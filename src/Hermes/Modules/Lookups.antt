-- ===== src/Hermes/Modules/Lookups.antt =====
-- What a look-up finds after a module was registered or removed.
use agent_os.Base.{
  ℕ, zero, suc, String, string_eq, false, List, [], ◌∷◌, ◌++◌, map, Option, none, some, ◌==◌, ◌≡◌,
  ◌≢◌, refl, ◌∙◌, sym, ap, subst, if◌then◌else◌, ok, arith,
}
use mathlib.Core.Option.{map as map_option}
use agent_os.Base.Map.{get, has}
use agent_os.Hermes.Modules.{
  ModuleSpec, InternalRecord, Registry, name_of, new_record, insert_record, register_module,
  splice_one, degrade, remove_at, remove_found, unregister_module, get_module,
}
use agent_os.Hermes.Modules.Positions.{Distinct, index_of, index_of-head, index_of-found}
use agent_os.Hermes.Modules.Agreement.{
  IsWellFormed, register_module-IsWellFormed, unregister_module-IsWellFormed,
}
use agent_os.Hermes.Modules.Steps.{find, lookup_at-index_of, get_module-find, register_module-ok}

find_none : (n : String) (rs : List InternalRecord) → index_of n rs ≡ none → find n rs ≡ none
find_none n rs h = sym (lookup_at-index_of n rs) ∙ rw h

abbrev or_else : Option InternalRecord → Option InternalRecord → Option InternalRecord
or_else none o = o
or_else (some r) o = some r

find-snoc :
    (n : String) (rs : List InternalRecord) (r : InternalRecord)
    → find n (rs ++ r ∷ []) ≡ or_else (find n rs) (if name_of r == n then some r else none)
unfolding find
find-snoc n [] r = ground arith
find-snoc n (q ∷ rs) r = ground (arith, find-snoc n rs r)

find-degrade :
    (name n : String) (rs : List InternalRecord)
    → find n (map (degrade name) rs) ≡ map_option (degrade name) (find n rs)
unfolding find degrade
find-degrade name n [] = refl
find-degrade name n (r ∷ rs) = ground (arith, find-degrade name n rs)

-- Without the record at the place of a name, nothing of that name is left, and the others are.
find-splice_one :
    (name n : String) (i : ℕ) (rs : List InternalRecord)
    → Distinct rs
    → index_of name rs ≡ some i
    → find n (splice_one i rs) ≡ (if name == n then none else find n rs)
unfolding find splice_one
find-splice_one name n i [] d h = ground arith
find-splice_one name n zero (r ∷ rs) d h =
    let found = index_of-found name r rs h in
    ground (arith, found, find_none (name_of r) rs d.0, string_eq.beq_iff name n)
find-splice_one name n (suc i) (r ∷ rs) d h =
    let (other, rest) = index_of-head name i r rs h in
    ground (
      arith,
      other,
      find-splice_one name n i rs d.1 rest,
      string_eq.beq_iff name n,
      string_eq.beq_iff (name_of r) n,
      string_eq.beq_iff (name_of r) name,
    )

find-remove_at :
    (name n : String) (idx : ℕ) (g : Registry)
    → IsWellFormed g
    → get g.index_by_name name ≡ some idx
    → find n (remove_at name idx g).records
      ≡ (if name == n then none else map_option (degrade name) (find n g.records))
unfolding remove_at
find-remove_at name n idx g w h =
    find-degrade name n (splice_one idx g.records)
    ∙ ap (map_option (degrade name))
        (find-splice_one name n idx g.records w.distinct (sym (w.agrees name) ∙ h))
    ∙ ground arith

find-remove_found :
    (name n : String) (o : Option ℕ) (g g' : Registry)
    → IsWellFormed g
    → get g.index_by_name name ≡ o
    → remove_found name o g ≡ ok g'
    → find n g'.records ≡ (if name == n then none else map_option (degrade name) (find n g.records))
unfolding remove_found
find-remove_found name n none g g' w h e = cc
find-remove_found name n (some idx) g g' w h e =
    let same : remove_at name idx g ≡ g' = ground arith in
    subst
      (λ (k : Registry).
        find n k.records
        ≡ (if name == n then none else map_option (degrade name) (find n g.records)))
      same (find-remove_at name n idx g w h)

-- After a module was removed from a well-formed registry, a look-up of its name finds nothing, and a
-- look-up of any other non-empty name finds what it found before, marked degraded if it depended on
-- the removed module.
pub unregister_module-get_module :
    (name n : String) (g g' : Registry)
    → IsWellFormed g
    → unregister_module name g ≡ ok g'
    → n ≢ ""
    → get_module n g'
      ≡ ok (if name == n then none else map_option (degrade name) (find n g.records))
unfolding unregister_module
unregister_module-get_module name n g g' w e ne =
    get_module-find n g' (unregister_module-IsWellFormed name g g' w e) ne
    ∙ ap ok (find-remove_found name n (get g.index_by_name name) g g' w refl (ground arith))

register_module-new :
    (spec : ModuleSpec) (now : ℕ) (g g' : Registry)
    → register_module spec now g ≡ ok g'
    → has g.index_by_name spec.name ≡ false
unfolding register_module
register_module-new spec now g g' e = ground arith

find-insert_record :
    (spec : ModuleSpec) (now : ℕ) (g : Registry) (n : String)
    → IsWellFormed g
    → has g.index_by_name spec.name ≡ false
    → find n (insert_record spec now g).records
      ≡ (if spec.name == n then some (new_record spec now) else find n g.records)
unfolding insert_record
find-insert_record spec now g n w h = ground (
  arith,
  find-snoc n g.records (new_record spec now),
  w.agrees spec.name,
  find_none spec.name g.records,
  string_eq.beq_iff spec.name n,
)

-- After a module was registered, a look-up of its name finds its new record, of unknown health, and
-- a look-up of any other non-empty name finds what it found before.
pub register_module-get_module :
    (spec : ModuleSpec) (now : ℕ) (g g' : Registry) (n : String)
    → IsWellFormed g
    → register_module spec now g ≡ ok g'
    → n ≢ ""
    → get_module n g' ≡ ok (if spec.name == n then some (new_record spec now) else find n g.records)
register_module-get_module spec now g g' n w e ne =
    get_module-find n g' (register_module-IsWellFormed spec now g g' w e) ne
    ∙ ap ok (
        subst
          (λ (k : Registry).
            find n k.records
            ≡ (if spec.name == n then some (new_record spec now) else find n g.records))
          (register_module-ok spec now g g' e).1
          (find-insert_record spec now g n w (register_module-new spec now g g' e)))
