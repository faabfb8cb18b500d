-- ===== src/Planning/Validator/Cycles.antt =====
-- That the depth-first search for cycles ends.
use agent_os.Base.{
  ℕ, zero, suc, ◌+◌, ◌≤◌, ◌<◌, String, string_eq, Bool, true, false, not, List, [], ◌∷◌, Option,
  none, some, ◌≡◌, refl, ◌∙◌, ap, sym, includes, length, length-keep-le, arith, Bool-cases,
  Option-cases, inl, inr,
}
use agent_os.Base.Unvisited.{unvisited, unvisited-add_le, unvisited-add_lt}
use agent_os.Base.Map.{Map, get, size, keys, has-includes, is_some}
use agent_os.Planning.Types.{PlanStep}
use agent_os.Planning.Validator.{
  PlanError, Search, from_first, report_cycle, enter, leave, leave_found, each, neighbors, dfs,
  search_from, adjacency_from, errors_of, validate_no_cycles,
}

abbrev pick : Bool → Bool → Option Search → Option Search → Option Search → Option Search
pick a b x y z = elim a [ true ↦ x | false ↦ elim b [ true ↦ y | false ↦ z ] ]

pick-false : (a b : Bool) (x y z : Option Search) → a ≡ false → b ≡ false → pick a b x y z ≡ z
pick-false a b x y z h k = rw (h, k)

pick-true : (a b : Bool) (x y z : Option Search) → a ≡ false → b ≡ true → pick a b x y z ≡ y
pick-true a b x y z h k = rw (h, k)

report_cycle-visited :
    (node : String) (o : Option (List String)) (s : Search)
    → (report_cycle node o s).visited ≡ s.visited
unfolding report_cycle
report_cycle-visited node none s = refl
report_cycle-visited node (some cycle) s = refl

module _ (adjacency : Map String (List String)) where
  abbrev left : Search → ℕ
  left s = unvisited (keys adjacency) s.visited

  -- The search goes on to a state with no more unvisited ids than `s`.
  record Reaches (o : Option Search) (s : Search) : Type 0 where
    state : Search
    reached : o ≡ some state
    fewer : left state ≤ left s

  abbrev Total : (String → Search → Option Search) → ℕ → Type 0
  Total f n = (node : String) (s : Search) → left s < n → Reaches (f node s) s

  each-Total :
      (f : String → Search → Option Search) (n : ℕ)
      → Total f n
      → (nodes : List String) (s : Search) → left s < n
      → Reaches (each f nodes s) s
  unfolding each
  each-Total f n total [] s lt = record { state = s; reached = refl; fewer = omega arith }
  each-Total f n total (node ∷ nodes) s lt =
      let a = total node s lt in
      let b = each-Total f n total nodes a.state (omega (arith, a.fewer)) in
      record {
        state = b.state;
        reached = rw (a.reached, each) b.reached;
        fewer = omega (arith, a.fewer, b.fewer);
      }

  pub dfs-new :
      (fuel : ℕ) (node : String) (s : Search)
      → includes s.in_stack node ≡ false
      → includes s.visited node ≡ false
      → dfs adjacency (suc fuel) node s
        ≡ leave_found node
            (each (dfs adjacency fuel) (neighbors (get adjacency node)) (enter node s))
  unfolding dfs
  dfs-new fuel node s a b =
      pick-false (includes s.in_stack node) (includes s.visited node) _ _ _ a b

  pub dfs-seen :
      (fuel : ℕ) (node : String) (s : Search)
      → includes s.in_stack node ≡ false
      → includes s.visited node ≡ true
      → dfs adjacency (suc fuel) node s ≡ some s
  unfolding dfs
  dfs-seen fuel node s a b =
      pick-true (includes s.in_stack node) (includes s.visited node) _ _ _ a b

  pub dfs-cycle :
      (fuel : ℕ) (node : String) (s : Search)
      → includes s.in_stack node ≡ true
      → dfs adjacency (suc fuel) node s ≡ some (report_cycle node (from_first node s.path) s)
  unfolding dfs
  dfs-cycle fuel node s a = rw (a, dfs)

  leave_found-Reaches :
      (node : String) (o : Option Search) (s t : Search)
      → Reaches o s
      → left s ≤ left t
      → Reaches (leave_found node o) t
  unfolding leave_found leave
  leave_found-Reaches node o s t r le = record {
    state = leave node r.state;
    reached = rw r.reached;
    fewer = omega (arith, r.fewer, le);
  }

  enter_le : (node : String) (s : Search) → left (enter node s) ≤ left s
  unfolding enter
  enter_le node s = unvisited-add_le (keys adjacency) s.visited node

  enter_lt :
      (node : String) (s : Search) (nodes : List String)
      → get adjacency node ≡ some nodes
      → includes s.visited node ≡ false
      → left (enter node s) < left s
  unfolding enter
  enter_lt node s nodes h v =
      unvisited-add_lt (keys adjacency) s.visited node
        (sym (has-includes adjacency node) ∙ ap is_some h) v

  -- From a state with as many unvisited ids, or fewer.
  Reaches-of_some : (o : Option Search) (s t : Search) → o ≡ some t → left t ≤ left s → Reaches o s
  Reaches-of_some o s t e le = record { state = t; reached = e; fewer = le }

  -- The loop over the neighbours of a node that was not visited.
  neighbors-Total :
      (fuel : ℕ)
      → Total (dfs adjacency fuel) fuel
      → (node : String) (s : Search) → left s < suc fuel
      → includes s.visited node ≡ false
      → Reaches
          (each (dfs adjacency fuel) (neighbors (get adjacency node)) (enter node s))
          (enter node s)
  neighbors-Total fuel total node s lt new = elim (Option-cases (get adjacency node)) [
    | inl unknown ↦
        rw unknown
          (Reaches-of_some _ (enter node s) (enter node s) (unfold each in refl) (omega arith))
    | inr known ↦ rw known.1 (
        each-Total (dfs adjacency fuel) fuel total known.0 (enter node s)
          (omega (arith, enter_lt node s known.0 known.1 new)))
  ]

  dfs-Total : (fuel : ℕ) → Total (dfs adjacency fuel) fuel
  dfs-Total zero node s lt = absurd (omega arith)
  dfs-Total (suc fuel) node s lt = elim (Bool-cases (includes s.in_stack node)) [
    | inl on_path ↦
        Reaches-of_some _ s (report_cycle node (from_first node s.path) s)
          (dfs-cycle fuel node s on_path)
          (rw (report_cycle-visited node (from_first node s.path) s) (omega arith))
    | inr free ↦ elim (Bool-cases (includes s.visited node)) [
      | inl seen ↦ Reaches-of_some _ s s (dfs-seen fuel node s free seen) (omega arith)
      | inr new ↦ rw (dfs-new fuel node s free new) (
          leave_found-Reaches node _ (enter node s) s
            (neighbors-Total fuel (dfs-Total fuel) node s lt new) (enter_le node s))
    ]
  ]

  search_from-Reaches :
      (fuel : ℕ) (steps : List PlanStep) (s : Search)
      → left s < fuel
      → Reaches (search_from adjacency fuel steps s) s
  unfolding search_from
  search_from-Reaches fuel [] s lt = Reaches-of_some _ s s refl (omega arith)
  search_from-Reaches fuel (step ∷ steps) s lt = elim (Bool-cases (includes s.visited step.id)) [
    | inl seen ↦ rw (seen, search_from) (search_from-Reaches fuel steps s lt)
    | inr new ↦
        let a = dfs-Total fuel step.id s lt in
        let b = search_from-Reaches fuel steps a.state (omega (arith, a.fewer)) in
        Reaches-of_some _ s b.state (rw (new, a.reached, search_from) b.reached)
          (omega (arith, a.fewer, b.fewer))
  ]

length-keys : (m : Map String (List String)) → length (keys m) ≡ size m
length-keys [] = refl
length-keys ((k, v) ∷ m) = omega (arith, length-keys m)

-- The search for cycles ends, whatever the steps depend on: one level of recursion for each id and
-- one more are enough.
pub validate_no_cycles_ends :
    (steps : List PlanStep) → (errors : List PlanError) × (validate_no_cycles steps ≡ some errors)
unfolding validate_no_cycles
validate_no_cycles_ends steps =
    let adjacency = adjacency_from [] steps in
    let start : Search = record { visited = []; in_stack = []; path = []; errors = [] } in
    let r = search_from-Reaches adjacency (size adjacency + 1) steps start (
      omega (
        arith,
        length-keys adjacency,
        length-keep-le (λ k. not (includes start.visited k)) (keys adjacency),
      )) in
    (r.state.errors, ap errors_of r.reached)
