-- ===== src/Runtime/Startup/Sorting/Order.antt =====
-- In which order the sort puts the startup's steps.
use agent_os.Runtime.Startup.{StartupStep, names_of, Sort}
use agent_os.Base.{
  ℕ, ◌≤◌, String, string_eq, Bool, true, false, List, [], ◌∷◌, ◌++◌, Option, none, some, ◌≡◌, sym,
  subst, includes, All, ◌⊎◌, inl, inr,
}
use mathlib.Core.List.{append-nil, append_assoc}
use agent_os.Base.Map.{Map, get, has}

-- A Boolean that holds for what the search says, whether or not it ended.
abbrev pub Settles : (Sort → Type 0) → Option Sort → Type 0
Settles P none = Unit
Settles P (some s) = P s

pub Settles-map :
    (P Q : Sort → Type 0) (o : Option Sort) → ((s : Sort) → P s → Q s) → Settles P o → Settles Q o
Settles-map P Q none h p = tt
Settles-map P Q (some s) h p = h s p

abbrev pub done : Sort → String → Bool
done s name = includes (names_of s.sorted) name

module _ (m : Map String StartupStep) where
  -- Each dependency that is the name of a step is among the names before it.
  abbrev pub IsPlaced : List String → StartupStep → Type 0
  IsPlaced before step = All (λ d. has m d ≡ true → includes before d ≡ true) step.dependencies

  -- Each step stands after what it depends on, and no name stands twice.
  abbrev pub Ordered : List String → List StartupStep → Type 0
  Ordered before [] = Unit
  Ordered before (step ∷ steps) =
      IsPlaced before step
      × (includes before step.name ≡ false)
      × Ordered (before ++ step.name ∷ []) steps

  pub Ordered-append :
      (before : List String) (steps : List StartupStep) (step : StartupStep)
      → Ordered before steps
      → IsPlaced (before ++ names_of steps) step
      → includes (before ++ names_of steps) step.name ≡ false
      → Ordered before (steps ++ step ∷ [])
  Ordered-append before [] step o p new =
      let same = append-nil before in
      (subst (λ b. IsPlaced b step) same p, subst (λ b. includes b step.name ≡ false) same new, tt)
  Ordered-append before (s ∷ steps) step o p new =
      let same = append_assoc before (s.name ∷ []) (names_of steps) in
      (
        o.0,
        o.1,
        Ordered-append (before ++ s.name ∷ []) steps step o.2
            (subst (λ b. IsPlaced b step) (sym same) p)
            (subst (λ b. includes b step.name ≡ false) (sym same) new),
      )

  -- What a part of the search that goes from `s` to `t` keeps.
  pub record Grows (s t : Sort) : Type 0 where
    pub keeps : (k : String) → done s k ≡ true → done t k ≡ true
    pub seen : (k : String) → includes s.visited k ≡ true → includes t.visited k ≡ true
    pub closed :
        (k : String)
        → has m k ≡ true
        → includes t.visited k ≡ true
        → (includes s.visited k ≡ true) ⊎ (done t k ≡ true)
    pub fresh : (k : String) → includes s.visited k ≡ true → done s k ≡ false → done t k ≡ false

  pub record Sound (s : Sort) : Type 0 where
    pub ordered : Ordered [] s.sorted
    pub visited : (k : String) → done s k ≡ true → includes s.visited k ≡ true
    pub kept : All (λ (step : StartupStep). get m step.name ≡ some step) s.sorted

  pub Grows-refl : (s : Sort) → Grows s s
  Grows-refl s = record {
    keeps = λ k h. h;
    seen = λ k h. h;
    closed = λ k known h. inl h;
    fresh = λ k v h. h;
  }

  pub Grows-trans : (s t u : Sort) → Grows s t → Grows t u → Grows s u
  Grows-trans s t u a b = record {
    keeps = λ k h. b.keeps k (a.keeps k h);
    seen = λ k h. b.seen k (a.seen k h);
    closed = λ k known h. elim (b.closed k known h) [
      | inl v ↦ elim (a.closed k known v) [ inl w ↦ inl w | inr d ↦ inr (b.keeps k d) ]
      | inr d ↦ inr d
    ];
    fresh = λ k v h. b.fresh k (a.seen k v) (a.fresh k v h);
  }

  -- A name that was visited is in its place, or its visit goes on: then it has a rank above `n`.
  abbrev pub Above : (String → ℕ) → ℕ → Sort → Type 0
  Above rank n s =
      (k : String) → has m k ≡ true → includes s.visited k ≡ true → (done s k ≡ true) ⊎ (n ≤ rank k)

  pub Above-Grows :
      (rank : String → ℕ) (n : ℕ) (s t : Sort) → Grows s t → Above rank n s → Above rank n t
  Above-Grows rank n s t g h k known v = elim (g.closed k known v) [
    | inl w ↦ elim (h k known w) [ inl d ↦ inl (g.keeps k d) | inr le ↦ inr le ]
    | inr d ↦ inl d
  ]

  pub record Visited (s : Sort) (name : String) (t : Sort) : Type 0 where
    pub grows : Grows s t
    pub sound : Sound t
    pub placed : has m name ≡ true → done t name ≡ true

  pub record VisitedAll (s : Sort) (names : List String) (t : Sort) : Type 0 where
    pub grows : Grows s t
    pub sound : Sound t
    pub placed : All (λ name. has m name ≡ true → done t name ≡ true) names
