-- ===== src/Runtime/Startup/Sorting/Acyclic.antt =====
-- That the sort puts each step after what it depends on, where no step depends on itself.
use agent_os.Runtime.Startup.{StartupStep, names_of, Sort, mark, push, visit_each, visit_new, visit}
use agent_os.Runtime.Startup.Sorting.Order.{
  Settles, Settles-map, done, Ordered-append, Grows, Grows-refl, Grows-trans, Sound, Above,
  Above-Grows, Visited, VisitedAll,
}
use agent_os.Base.{
  ℕ, zero, suc, ◌+◌, ◌<◌, String, string_eq, false, ◌||◌, List, [], ◌∷◌, ◌++◌, Option, none, some,
  ◌==◌, ◌≡◌, refl, ap, sym, subst, includes, includes-append, All, All-append, arith, Bool-cases,
  Option-cases, inl, inr,
}
use agent_os.Base.Unvisited.{includes-add}
use agent_os.Base.Map.{Map, get, has}

names_of-append : (xs ys : List StartupStep) → names_of (xs ++ ys) ≡ names_of xs ++ names_of ys
names_of-append [] ys = refl
names_of-append (x ∷ xs) ys = ap (λ names. x.name ∷ names) (names_of-append xs ys)

abbrev pushed : StartupStep → Sort → Sort
pushed step s = record s { sorted = s.sorted ++ step ∷ [] }

done-pushed :
    (step : StartupStep) (s : Sort) (k : String)
    → done (pushed step s) k ≡ (done s k || step.name == k)
done-pushed step s k = ground (
  arith,
  names_of-append s.sorted (step ∷ []),
  includes-append (names_of s.sorted) (step.name ∷ []) k,
)

push-Settles :
    (P Q : Sort → Type 0) (step : StartupStep) (o : Option Sort)
    → ((t : Sort) → P t → Q (pushed step t))
    → Settles P o
    → Settles Q (push step o)
push-Settles P Q step none h p = tt
push-Settles P Q step (some t) h p = h t p

-- The steps are kept by their names, and each depends on steps of a smaller rank.
pub record IsAcyclic (rank : String → ℕ) (m : Map String StartupStep) : Type 0 where
  pub named : (k : String) (step : StartupStep) → get m k ≡ some step → step.name ≡ k
  pub smaller :
      (k : String) (step : StartupStep)
      → get m k ≡ some step
      → All (λ d. rank d < rank k) step.dependencies

module _ (m : Map String StartupStep) where
  Grows-mark : (s : Sort) (name : String) → has m name ≡ false → Grows m s (mark name s)
  Grows-mark s name unknown = record {
    keeps = λ k h. h;
    seen = λ k h. ground (arith, includes-add s.visited name k);
    closed =
        λ k known h. inl (ground (arith, includes-add s.visited name k, string_eq.beq_iff name k));
    fresh = λ k v h. h;
  }

  Sound-mark : (s : Sort) (name : String) → Sound m s → Sound m (mark name s)
  Sound-mark s name sound = record {
    ordered = sound.ordered;
    visited = λ k h. ground (arith, includes-add s.visited name k, sound.visited k h);
    kept = sound.kept;
  }

  module _ (s : Sort) (step : StartupStep) (new : includes s.visited step.name ≡ false) (t : Sort)
      (v : VisitedAll m (mark step.name s) step.dependencies t) where
    Grows-pushed : Grows m s (pushed step t)
    Grows-pushed = record {
      keeps = λ k h. ground (arith, done-pushed step t k, v.grows.keeps k h);
      seen = λ k h. v.grows.seen k (ground (arith, includes-add s.visited step.name k));
      closed = λ k known h. elim (v.grows.closed k known h) [
        | inl w ↦ elim (Bool-cases (includes s.visited k)) [
          | inl old ↦ inl old
          | inr first ↦
              inr (ground (arith, done-pushed step t k, includes-add s.visited step.name k))
        ]
        | inr d ↦ inr (ground (arith, done-pushed step t k))
      ];
      fresh = λ k old h. ground (
        arith,
        done-pushed step t k,
        v.grows.fresh k (ground (arith, includes-add s.visited step.name k)) h,
        string_eq.beq_iff step.name k,
      );
    }

    Sound-pushed : get m step.name ≡ some step → Sound m s → Sound m (pushed step t)
    Sound-pushed known sound = record {
      kept = All-append _ t.sorted (step ∷ []) v.sound.kept (known, tt);
      ordered = Ordered-append m [] t.sorted step v.sound.ordered v.placed (
          v.grows.fresh step.name
            (ground (
              arith,
              includes-add s.visited step.name step.name,
              string_eq.beq_iff step.name step.name,
            ))
            (ground (arith, sound.visited step.name)));
      visited = λ k h. elim (Bool-cases (done t k)) [
        | inl d ↦ v.sound.visited k d
        | inr not_before ↦ v.grows.seen k (
            ground (
              arith,
              done-pushed step t k,
              includes-add s.visited step.name k,
              string_eq.beq_iff step.name k,
            ))
      ];
    }

  module _ (rank : String → ℕ) where
    -- What the search at each name brings about.
    abbrev pub Good : (String → Sort → Option Sort) → Type 0
    Good f =
        (name : String) (s : Sort)
        → Sound m s
        → Above m rank (rank name + 1) s
        → Settles (Visited m s name) (f name s)

    abbrev pub CanVisit : Sort → String → Type 0
    CanVisit s name = Above m rank (rank name + 1) s

    CanVisit-Grows :
        (s t : Sort) (names : List String)
        → Grows m s t
        → All (CanVisit s) names
        → All (CanVisit t) names
    CanVisit-Grows s t [] g h = tt
    CanVisit-Grows s t (name ∷ names) g h =
        (Above-Grows m rank (rank name + 1) s t g h.0, CanVisit-Grows s t names g h.1)

    both-Visited :
        (s t u : Sort) (name : String) (names : List String)
        → Visited m s name t
        → VisitedAll m t names u
        → VisitedAll m s (name ∷ names) u
    both-Visited s t u name names a b = record {
      grows = Grows-trans m s t u a.grows b.grows;
      sound = b.sound;
      placed = (λ known. b.grows.keeps name (a.placed known), b.placed);
    }

    visit_rest-Settles :
        (f : String → Sort → Option Sort) (s : Sort) (name : String) (names : List String)
        (o : Option Sort)
        → Settles (Visited m s name) o
        → ((t : Sort) → Visited m s name t → Settles (VisitedAll m t names) (visit_each f names t))
        → Settles
            (VisitedAll m s (name ∷ names))
            (elim o [ none ↦ none | some t ↦ visit_each f names t ])
    visit_rest-Settles f s name names none h k = tt
    visit_rest-Settles f s name names (some t) h k =
        Settles-map (VisitedAll m t names) (VisitedAll m s (name ∷ names)) (visit_each f names t)
          (λ u. both-Visited s t u name names h) (k t h)

    pub visit_each-Settles :
        (f : String → Sort → Option Sort) (names : List String) (s : Sort)
        → Good f
        → Sound m s
        → All (CanVisit s) names
        → Settles (VisitedAll m s names) (visit_each f names s)
    visit_each-Settles f [] s good sound h = record {
      grows = Grows-refl m s;
      sound = sound;
      placed = tt;
    }
    visit_each-Settles f (name ∷ names) s good sound h =
        visit_rest-Settles f s name names (f name s) (good name s sound h.0)
          (λ t v. visit_each-Settles f names t good v.sound (CanVisit-Grows s t names v.grows h.1))

    CanVisit-mark :
        (s : Sort) (name : String) (names : List String)
        → CanVisit s name
        → All (λ d. rank d < rank name) names
        → All (CanVisit (mark name s)) names
    CanVisit-mark s name [] h below = tt
    CanVisit-mark s name (d ∷ names) h below = (
      λ k known v. elim (Bool-cases (includes s.visited k)) [
        | inl old ↦ elim (h k known old) [ inl d ↦ inl d | inr le ↦ inr (omega (arith, below.0)) ]
        | inr first ↦
            inr (ground (arith, includes-add s.visited name k, string_eq.beq_iff name k, below.0))
      ],
      CanVisit-mark s name names h below.1,
    )

    visit_step-Settles :
        (f : String → Sort → Option Sort) (step : StartupStep) (s : Sort)
        → Good f
        → Sound m s
        → CanVisit s step.name
        → get m step.name ≡ some step
        → All (λ d. rank d < rank step.name) step.dependencies
        → includes s.visited step.name ≡ false
        → Settles
            (Visited m s step.name)
            (push step (visit_each f step.dependencies (mark step.name s)))
    visit_step-Settles f step s good sound can known below new =
        push-Settles (VisitedAll m (mark step.name s) step.dependencies) (Visited m s step.name)
          step (visit_each f step.dependencies (mark step.name s))
          (λ t v. record {
            grows = Grows-pushed s step new t v;
            sound = Sound-pushed s step new t v known sound;
            placed = λ _.
                ground (arith, done-pushed step t step.name, string_eq.beq_iff step.name step.name);
          })
          (visit_each-Settles f step.dependencies (mark step.name s) good
            (Sound-mark s step.name sound) (CanVisit-mark s step.name step.dependencies can below))

    visit_new-Settles :
        (f : String → Sort → Option Sort) (name : String) (s : Sort)
        → IsAcyclic rank m
        → Good f
        → Sound m s
        → CanVisit s name
        → includes s.visited name ≡ false
        → Settles (Visited m s name) (visit_new f name (get m name) s)
    visit_new-Settles f name s acyclic good sound can new = elim (Option-cases (get m name)) [
      | inl unknown ↦ rw unknown (
          let absent : has m name ≡ false = rw unknown refl in
          record {
            grows = Grows-mark s name absent;
            sound = Sound-mark s name sound;
            placed = λ known. absurd cc;
          })
      | inr (step, known) ↦
          let same = acyclic.named name step known in
          rw known (
            subst
              (λ n. Settles (Visited m s n) (push step (visit_each f step.dependencies (mark n s))))
              same
              (visit_step-Settles f step s good sound (subst (CanVisit s) (sym same) can)
                (subst (λ n. get m n ≡ some step) (sym same) known)
                (acyclic.smaller step.name step (subst (λ n. get m n ≡ some step) (sym same) known))
                (subst (λ n. includes s.visited n ≡ false) (sym same) new)))
    ]

    pub visit-Good : (fuel : ℕ) → IsAcyclic rank m → Good (visit m fuel)
    unfolding visit
    visit-Good zero acyclic name s sound can = tt
    visit-Good (suc fuel) acyclic name s sound can = elim (Bool-cases (includes s.visited name)) [
      | inl seen ↦
          rw (seen, visit)
            (record {
              grows = Grows-refl m s;
              sound = sound;
              placed =
                  λ known. elim (can name known seen) [ inl d ↦ d | inr le ↦ absurd (omega arith) ];
            })
      | inr new ↦
          rw (new, visit)
            (visit_new-Settles (visit m fuel) name s acyclic (visit-Good fuel acyclic) sound can
              new)
    ]
