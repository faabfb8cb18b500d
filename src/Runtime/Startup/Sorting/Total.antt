-- ===== src/Runtime/Startup/Sorting/Total.antt =====
-- That the sort of the startup's steps ends.
use agent_os.Runtime.Startup.{
  StartupStep, names_of, by_name_from, Sort, mark, push, visit_each, visit_new, visit, sorted_of,
  topological_sort,
}
use agent_os.Base.{
  ℕ, zero, suc, ◌+◌, ◌≤◌, ◌<◌, String, string_eq, false, not, List, [], ◌∷◌, ◌++◌, Option, some,
  ◌≡◌, refl, ◌∙◌, ap, sym, includes, length, length-keep-le, arith, Bool-cases, Option-cases, inl,
  inr,
}
use agent_os.Base.Unvisited.{unvisited, unvisited-add_le, unvisited-add_lt}
use agent_os.Base.Map.{Map, get, size, keys, has-includes, is_some}

module _ (m : Map String StartupStep) where
  abbrev left : Sort → ℕ
  left s = unvisited (keys m) s.visited

  -- The sort goes on to a state with no more unvisited names than `s`.
  record Reaches (o : Option Sort) (s : Sort) : Type 0 where
    state : Sort
    reached : o ≡ some state
    fewer : left state ≤ left s

  abbrev Total : (String → Sort → Option Sort) → ℕ → Type 0
  Total f n = (name : String) (s : Sort) → left s < n → Reaches (f name s) s

  reaches : {o : Option Sort} {s : Sort} (t : Sort) → o ≡ some t → left t ≤ left s → Reaches o s
  reaches t e le = record { state = t; reached = e; fewer = le }

  visit_each-Total :
      (f : String → Sort → Option Sort) (n : ℕ)
      → Total f n
      → (names : List String) (s : Sort) → left s < n
      → Reaches (visit_each f names s) s
  visit_each-Total f n total [] s lt = reaches s refl (omega arith)
  visit_each-Total f n total (name ∷ names) s lt =
      let a = total name s lt in
      let b = visit_each-Total f n total names a.state (omega (arith, a.fewer)) in
      reaches b.state (rw (a.reached, visit_each) b.reached) (omega (arith, a.fewer, b.fewer))

  visit_new-Total :
      (f : String → Sort → Option Sort) (n : ℕ) (name : String) (s : Sort)
      → Total f n
      → left s < suc n
      → includes s.visited name ≡ false
      → Reaches (visit_new f name (get m name) s) s
  visit_new-Total f n name s total lt new = elim (Option-cases (get m name)) [
    | inl unknown ↦
        rw unknown (reaches (mark name s) refl (unvisited-add_le (keys m) s.visited name))
    | inr (step, known) ↦
        let fewer =
          unvisited-add_lt (keys m) s.visited name (sym (has-includes m name) ∙ ap is_some known)
            new in
        let r = visit_each-Total f n total step.dependencies (mark name s) (omega (arith, fewer)) in
        reaches (record r.state { sorted = r.state.sorted ++ step ∷ [] })
          (rw (known, r.reached, push) refl) (omega (arith, fewer, r.fewer))
  ]

  visit-Total : (fuel : ℕ) → Total (visit m fuel) fuel
  unfolding visit
  visit-Total zero name s lt = absurd (omega arith)
  visit-Total (suc fuel) name s lt = elim (Bool-cases (includes s.visited name)) [
    | inl seen ↦ reaches s (rw (seen, visit) refl) (omega arith)
    | inr new ↦
        rw (new, visit) (visit_new-Total (visit m fuel) fuel name s (visit-Total fuel) lt new)
  ]

length-keys : (m : Map String StartupStep) → length (keys m) ≡ size m
length-keys [] = refl
length-keys ((k, v) ∷ m) = omega (arith, length-keys m)

-- The sort ends, whatever the steps depend on, cycles included: one level of recursion for each
-- name and one more are enough.
pub topological_sort_ends :
    (steps : List StartupStep)
    → (s : Sort) × (visit_each
          (visit (by_name_from [] steps) (size (by_name_from [] steps) + 1))
          (names_of steps)
          (record { visited = []; sorted = [] })
        ≡ some s)
      × (topological_sort steps ≡ some s.sorted)
unfolding topological_sort
topological_sort_ends steps =
    let by_name = by_name_from [] steps in
    let start : Sort = record { visited = []; sorted = [] } in
    let r =
      visit_each-Total by_name (visit by_name (size by_name + 1)) (size by_name + 1)
        (visit-Total by_name (size by_name + 1)) (names_of steps) start
        (omega (
          arith,
          length-keys by_name,
          length-keep-le (λ k. not (includes start.visited k)) (keys by_name),
        )) in
    (r.state, r.reached, ap sorted_of r.reached)
