-- ===== src/Planning/Validator/Walks.antt =====
-- That each cycle which the search reports is one.
use agent_os.Base.{
  ℕ, zero, suc, ◌+◌, String, string_eq, true, List, [], ◌∷◌, ◌++◌, Option, none, some, ◌==◌, ◌≡◌,
  refl, ◌∙◌, ap, sym, subst, includes, All, All-append, arith, Bool-cases, Option-cases, inl, inr,
  beq_refl,
}
use agent_os.Base.Map.{Map, get, size}
use mathlib.Core.Option.{some-injective}
use agent_os.Planning.Types.{PlanStep}
use agent_os.Planning.Validator.{
  PlanError, dependency_cycle, Search, from_first, drop_last, report_cycle, enter, leave,
  leave_found, each, neighbors, dfs, search_from, adjacency_from, errors_of, validate_no_cycles,
}
use agent_os.Planning.Validator.Cycles.{dfs-new, dfs-seen, dfs-cycle}

includes_more :
    (n : String) (ns ms : List String)
    → All (λ m. includes ns m ≡ true) ms
    → All (λ m. includes (n ∷ ns) m ≡ true) ms
includes_more n ns [] a = tt
includes_more n ns (m ∷ ms) a = (ground (arith, a.0), includes_more n ns ms a.1)

includes_self : (ns : List String) → All (λ m. includes ns m ≡ true) ns
includes_self [] = tt
includes_self (n ∷ ns) = (ground (arith, beq_refl n), includes_more n ns ns (includes_self ns))

module _ (adjacency : Map String (List String)) where
  -- `a` depends on `b`.
  abbrev pub Edge : String → String → Type 0
  Edge a b = includes (neighbors (get adjacency a)) b ≡ true

  -- Each node depends on the next.
  abbrev pub Walk : List String → Type 0
  Walk [] = Unit
  Walk (x ∷ []) = Unit
  Walk (x ∷ y ∷ rest) = Edge x y × Walk (y ∷ rest)

  -- The last node of a path, if there is one, depends on `n`.
  abbrev Joins : List String → String → Type 0
  Joins [] n = Unit
  Joins (x ∷ []) n = Edge x n
  Joins (x ∷ y ∷ rest) n = Joins (y ∷ rest) n

  -- The error reports a walk that ends where it begins.
  pub IsCycle : PlanError → Type 0
  IsCycle (dependency_cycle nodes) =
      Walk nodes × (node : String) × (between : List String) × (nodes ≡ node ∷ between ++ node ∷ [])
  IsCycle _ = ⊥

  Walk-snoc : (p : List String) (n : String) → Walk p → Joins p n → Walk (p ++ n ∷ [])
  Walk-snoc [] n w j = tt
  Walk-snoc (x ∷ []) n w j = (j, tt)
  Walk-snoc (x ∷ y ∷ p) n w j = (w.0, Walk-snoc (y ∷ p) n w.1 j)

  Joins-snoc : (p : List String) (n m : String) → Edge n m → Joins (p ++ n ∷ []) m
  Joins-snoc [] n m e = e
  Joins-snoc (x ∷ []) n m e = e
  Joins-snoc (x ∷ y ∷ p) n m e = Joins-snoc (y ∷ p) n m e

  -- What is cut from a walk at the first place of a node.
  record Cut (node : String) (c : List String) : Type 0 where
    between : List String
    begins : c ≡ node ∷ between
    walk : Walk c
    joins : Joins c node

  Walk-tail : (x : String) (p : List String) → Walk (x ∷ p) → Walk p
  Walk-tail x [] w = tt
  Walk-tail x (y ∷ p) w = w.1

  Joins-tail : (x : String) (p : List String) (n : String) → Joins (x ∷ p) n → Joins p n
  Joins-tail x [] n j = tt
  Joins-tail x (y ∷ p) n j = j

  from_first-Cut :
      (node : String) (p c : List String)
      → Walk p
      → Joins p node
      → from_first node p ≡ some c
      → Cut node c
  unfolding from_first
  from_first-Cut node [] c w j h = cc
  from_first-Cut node (x ∷ p) c w j h = elim (Bool-cases (x == node)) [
    | inl found ↦
        let same = some-injective _ _ (rw (found, from_first) at h) in
        subst (Cut node) same (record {
          between = p;
          begins = ap (λ z. z ∷ p) ((string_eq.beq_iff x node).0 found);
          walk = w;
          joins = j;
        })
    | inr other ↦
        from_first-Cut node p c (Walk-tail x p w) (Joins-tail x p node j)
          (rw (other, from_first) at h)
  ]

  record Good (s : Search) : Type 0 where
    walk : Walk s.path
    cycles : All IsCycle s.errors

  report_cycle-Good :
      (node : String) (o : Option (List String)) (s : Search)
      → from_first node s.path ≡ o
      → Joins s.path node
      → Good s
      → Good (report_cycle node o s) × ((report_cycle node o s).path ≡ s.path)
  unfolding report_cycle IsCycle
  report_cycle-Good node none s h j g = (g, refl)
  report_cycle-Good node (some c) s h j g =
      let cut = from_first-Cut node s.path c g.walk j h in
      (
        record {
          walk = g.walk;
          cycles = All-append IsCycle s.errors (dependency_cycle (c ++ node ∷ []) ∷ []) g.cycles (
            (
              Walk-snoc c node cut.walk cut.joins,
              node,
              cut.between,
              ap (λ z. z ++ node ∷ []) cut.begins,
            ),
            tt,
          );
        },
        refl,
      )

  drop_last-snoc : (p : List String) (n : String) → drop_last (p ++ n ∷ []) ≡ p
  unfolding drop_last
  drop_last-snoc [] n = refl
  drop_last-snoc (x ∷ []) n = refl
  drop_last-snoc (x ∷ y ∷ p) n = ap (λ z. x ∷ z) (drop_last-snoc (y ∷ p) n)

  -- A step of the search from a path that leads to its node keeps the path and reports cycles only.
  abbrev Keeps : (String → Search → Option Search) → Type 0
  Keeps f =
      (node : String) (s s' : Search)
      → Joins s.path node
      → Good s
      → f node s ≡ some s'
      → Good s' × (s'.path ≡ s.path)

  each-Keeps :
      (f : String → Search → Option Search)
      → Keeps f
      → (nodes : List String) (s s' : Search) → All (Joins s.path) nodes
      → Good s
      → each f nodes s ≡ some s'
      → Good s' × (s'.path ≡ s.path)
  unfolding each
  each-Keeps f k [] s s' j g h =
      let same = some-injective _ _ h in (subst Good same g, ap (λ (t : Search). t.path) (sym same))
  each-Keeps f k (node ∷ nodes) s s' j g h = elim (Option-cases (f node s)) [
    | inl failed ↦ absurd (cc (rw (failed, each) at h))
    | inr (t, went) ↦
        let (gt, same) = k node s t j.0 g went in
        let (gs, again) =
          each-Keeps f k nodes t s' (subst (λ p. All (Joins p) nodes) (sym same) j.1) gt
            (rw (went, each) at h) in
        (gs, again ∙ same)
  ]

  joined :
      (p : List String) (node : String) (ms : List String)
      → All (λ m. Edge node m) ms
      → All (Joins (p ++ node ∷ [])) ms
  joined p node [] a = tt
  joined p node (m ∷ ms) a = (Joins-snoc p node m a.0, joined p node ms a.1)

  enter-Good : (node : String) (s : Search) → Joins s.path node → Good s → Good (enter node s)
  unfolding enter
  enter-Good node s j g = record { walk = Walk-snoc s.path node g.walk j; cycles = g.cycles }

  leave_found-Keeps :
      (node : String) (o : Option Search) (s s' : Search)
      → ((t : Search) → o ≡ some t → Good t × (t.path ≡ (enter node s).path))
      → Good s
      → leave_found node o ≡ some s'
      → Good s' × (s'.path ≡ s.path)
  leave_found-Keeps node none s s' k g h = absurd (unfold leave_found in cc h)
  leave_found-Keeps node (some t) s s' k g h =
      let (gt, same) = k t refl in
      let back : drop_last t.path ≡ s.path = rw same (unfold enter in drop_last-snoc s.path node) in
      let left : leave node t ≡ s' = unfold leave_found in some-injective _ _ h in
      subst (λ (z : Search). Good z × (z.path ≡ s.path)) left
        (unfold leave in (record { walk = subst Walk (sym back) g.walk; cycles = gt.cycles }, back))

  dfs-zero : (node : String) (s : Search) → dfs adjacency 0 node s ≡ none
  unfolding dfs
  dfs-zero node s = refl

  dfs-Keeps : (fuel : ℕ) → Keeps (dfs adjacency fuel)
  dfs-Keeps zero node s s' j g h = absurd (cc (sym (dfs-zero node s) ∙ h))
  dfs-Keeps (suc fuel) node s s' j g h = elim (Bool-cases (includes s.in_stack node)) [
    | inl on_path ↦
        let same = some-injective _ _ (sym (dfs-cycle adjacency fuel node s on_path) ∙ h) in
        subst (λ (z : Search). Good z × (z.path ≡ s.path)) same
          (report_cycle-Good node (from_first node s.path) s refl j g)
    | inr free ↦ elim (Bool-cases (includes s.visited node)) [
      | inl seen ↦
          let same = some-injective _ _ (sym (dfs-seen adjacency fuel node s free seen) ∙ h) in
          subst (λ (z : Search). Good z × (z.path ≡ s.path)) same (g, refl)
      | inr new ↦
          leave_found-Keeps node _ s s'
            (λ t went.
              each-Keeps (dfs adjacency fuel) (dfs-Keeps fuel) (neighbors (get adjacency node))
                (enter node s) t
                (unfold enter in
                  joined s.path node (neighbors (get adjacency node))
                    (includes_self (neighbors (get adjacency node))))
                (enter-Good node s j g) went)
            g (sym (dfs-new adjacency fuel node s free new) ∙ h)
    ]
  ]

  search_from-Good :
      (fuel : ℕ) (steps : List PlanStep) (s s' : Search)
      → s.path ≡ []
      → Good s
      → search_from adjacency fuel steps s ≡ some s'
      → Good s'
  unfolding search_from
  search_from-Good fuel [] s s' e g h = subst Good (some-injective _ _ h) g
  search_from-Good fuel (step ∷ steps) s s' e g h = elim (Bool-cases (includes s.visited step.id)) [
    | inl seen ↦ search_from-Good fuel steps s s' e g (rw (seen, search_from) at h)
    | inr new ↦ elim (Option-cases (dfs adjacency fuel step.id s)) [
      | inl failed ↦ absurd (cc (rw (new, failed, search_from) at h))
      | inr (t, went) ↦
          let (gt, same) =
            dfs-Keeps fuel step.id s t (subst (λ p. Joins p step.id) (sym e) tt) g went in
          search_from-Good fuel steps t s' (same ∙ e) gt (rw (new, went, search_from) at h)
    ]
  ]

errors_of-some :
    (o : Option Search) (errors : List PlanError)
    → errors_of o ≡ some errors
    → (s : Search) × (o ≡ some s) × (s.errors ≡ errors)
errors_of-some none errors h = cc
errors_of-some (some s) errors h = (s, refl, some-injective _ _ h)

-- Each error of the search for cycles reports a cycle: a list of ids that begins and ends with the
-- same one, each of which depends on the next.
pub validate_no_cycles-IsCycle :
    (steps : List PlanStep) (errors : List PlanError)
    → validate_no_cycles steps ≡ some errors
    → All (IsCycle (adjacency_from [] steps)) errors
unfolding validate_no_cycles
validate_no_cycles-IsCycle steps errors h =
    let adjacency = adjacency_from [] steps in
    let (s, ends, same) = errors_of-some _ errors h in
    subst (All (IsCycle adjacency)) same (
      Good.cycles (
        search_from-Good adjacency (size adjacency + 1) steps _ s refl
          (record { walk = tt; cycles = tt }) ends))
