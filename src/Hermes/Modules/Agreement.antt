-- ===== src/Hermes/Modules/Agreement.antt =====
-- The positions in the map are those of the records in the array, and names are not repeated.
use agent_os.Base.{
  ℕ, String, string_eq, true, false, Option, none, some, ◌==◌, ◌≡◌, refl, ◌∙◌, sym, subst, length,
  ok, arith,
}
use agent_os.Base.Map.{get, remove, has, get-put, get-remove, is_some}
use agent_os.Hermes.Modules.{
  ModuleSpec, Registry, new_record, insert_record, register_module, splice_one, drop_records,
  remove_at, remove_found, unregister_module,
}
use agent_os.Hermes.Modules.Positions.{
  or_at, plus, index_of, Distinct, index_of-snoc, Distinct-snoc, get-renumber, index_of-degrade,
  Distinct-degrade, Distinct-splice_one, Distinct-drop_records, index_of-splice_one,
}

pub record IsWellFormed (g : Registry) : Type 0 where
  pub agrees : (n : String) → get g.index_by_name n ≡ index_of n g.records
  pub distinct : Distinct g.records

or_at_some : (o p : Option ℕ) → is_some p ≡ true → is_some (or_at o p) ≡ true
or_at_some none p h = h
or_at_some (some k) p h = refl

insert-IsWellFormed :
    (spec : ModuleSpec) (now : ℕ) (g : Registry)
    → IsWellFormed g
    → has g.index_by_name spec.name ≡ false
    → IsWellFormed (insert_record spec now g)
unfolding insert_record
insert-IsWellFormed spec now g w h = record {
  agrees = λ n. ground (
    arith,
    w.agrees n,
    w.agrees spec.name,
    index_of-snoc n g.records (new_record spec now),
    get-put g.index_by_name spec.name (length g.records) n,
    string_eq.beq_iff spec.name n,
  );
  distinct =
      Distinct-snoc g.records (new_record spec now) w.distinct (ground (arith, w.agrees spec.name));
}

-- Registering a module keeps the registry well formed.
pub register_module-IsWellFormed :
    (spec : ModuleSpec) (now : ℕ) (g g' : Registry)
    → IsWellFormed g
    → register_module spec now g ≡ ok g'
    → IsWellFormed g'
unfolding register_module
register_module-IsWellFormed spec now g g' w e = ground (arith, insert-IsWellFormed spec now g)

-- A name that was there, and is not the removed one, is still there.
pub has-remove_at :
    (name n : String) (idx : ℕ) (g : Registry)
    → IsWellFormed g
    → (name == n) ≡ false
    → has g.index_by_name n ≡ true
    → has (remove_at name idx g).index_by_name n ≡ true
unfolding remove_at
has-remove_at name n idx g w ne h =
    let left = splice_one idx g.records in
    rw
      (get-renumber idx (drop_records idx left) (remove g.index_by_name name) n
        (Distinct-drop_records idx left (Distinct-splice_one idx g.records w.distinct)))
      (or_at_some (plus idx (index_of n (drop_records idx left)))
        (get (remove g.index_by_name name) n) (ground (arith, get-remove g.index_by_name name n)))

remove-IsWellFormed :
    (name : String) (idx : ℕ) (g : Registry)
    → IsWellFormed g
    → get g.index_by_name name ≡ some idx
    → IsWellFormed (remove_at name idx g)
unfolding remove_at
remove-IsWellFormed name idx g w h =
    let found = sym (w.agrees name) ∙ h in
    let left = splice_one idx g.records in
    record {
      agrees = λ n.
          get-renumber idx (drop_records idx left) (remove g.index_by_name name) n
            (Distinct-drop_records idx left (Distinct-splice_one idx g.records w.distinct))
          ∙ rw (get-remove g.index_by_name name n, w.agrees n)
              (index_of-splice_one name n idx g.records w.distinct found)
          ∙ sym (index_of-degrade name n left);
      distinct = Distinct-degrade name left (Distinct-splice_one idx g.records w.distinct);
    }

remove_found-IsWellFormed :
    (name : String) (o : Option ℕ) (g g' : Registry)
    → IsWellFormed g
    → get g.index_by_name name ≡ o
    → remove_found name o g ≡ ok g'
    → IsWellFormed g'
unfolding remove_found
remove_found-IsWellFormed name none g g' w h e = cc
remove_found-IsWellFormed name (some idx) g g' w h e =
    subst IsWellFormed (ground arith) (remove-IsWellFormed name idx g w h)

-- Removing a module keeps the registry well formed: the later records move up by one place, and
-- the map follows.
pub unregister_module-IsWellFormed :
    (name : String) (g g' : Registry)
    → IsWellFormed g
    → unregister_module name g ≡ ok g'
    → IsWellFormed g'
unfolding unregister_module
unregister_module-IsWellFormed name g g' w e =
    remove_found-IsWellFormed name (get g.index_by_name name) g g' w refl (ground arith)
