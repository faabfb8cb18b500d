-- ===== src/Graph/Paths/Walks.antt =====
-- That the search for a path ends, and that what it finds is a path.
use agent_os.Graph.{GraphEdge, Graph, ids_at, edges_of, cons_edge}
use agent_os.Graph.Paths.{
  GraphPath, Item, longer, items_for, Round, answer, next, expand, round, go_on, search, count_ids,
  find_path,
}
use agent_os.Base.{
  ℕ, zero, suc, ◌+◌, ◌≤◌, ◌<◌, String, string_eq, true, false, List, [], ◌∷◌, Option, none, some,
  ◌==◌, ◌≡◌, refl, subst, if◌then◌else◌, if-elim, includes, add, length, length-append, leb, All,
  All-append, arith, Bool-cases, Option-cases, inl, inr,
}
use agent_os.Base.Unvisited.{includes-add}
use agent_os.Base.Map.{Map, get}

-- A walk from `source`: each edge of it is an edge of the graph that is listed at the node where it
-- is taken.
pub data Walk (g : Graph) (source : String) : String → GraphPath → Type 0 where
  here : Walk g source source (record { nodes = source ∷ []; edges = []; steps = 0 })
  onward :
      (n k : String) (p : GraphPath) (e : GraphEdge)
      → Walk g source n p
      → includes (ids_at g.outgoing_edges n) k ≡ true
      → get g.edges k ≡ some e
      → Walk g source e.target_id (longer e p)

module _ (g : Graph) (source : String) (max_depth : ℕ) where
  abbrev IsItem : Item → Type 0
  IsItem (n, p) = Walk g source n p × (p.steps ≤ max_depth)

  items_for-IsItem :
      (visited : List String) (n : String) (p : GraphPath) (ids : List String)
      → Walk g source n p
      → p.steps < max_depth
      → ((k : String) → includes ids k ≡ true → includes (ids_at g.outgoing_edges n) k ≡ true)
      → All IsItem (items_for visited p (edges_of g.edges ids))
  unfolding edges_of cons_edge
  items_for-IsItem visited n p [] w lt within = tt
  items_for-IsItem visited n p (k ∷ ids) w lt within =
      let rest = items_for-IsItem visited n p ids w lt (λ k i. within k (ground (arith, i))) in
      elim (Option-cases (get g.edges k)) [
        | inl absent ↦ rw absent rest
        | inr (e, found) ↦ rw found (
            if-elim (All IsItem) (includes visited e.target_id) rest (
              (
                onward n k p e w (within k (ground (arith, string_eq.beq_iff k k))) found,
                omega arith,
              ),
              rest,
            ))
      ]

-- The ids of edges that leave nodes not visited yet.
abbrev left : Map String (List String) → List String → ℕ
left [] visited = 0
left ((n, ids) ∷ m) visited =
    let rest = left m visited in if includes visited n then rest else length ids + rest

left-add_le :
    (m : Map String (List String)) (visited : List String) (n : String)
    → left m (add visited n) ≤ left m visited
left-add_le [] visited n = omega arith
left-add_le ((k, ids) ∷ m) visited n =
    ground (arith, left-add_le m visited n, includes-add visited n k)

left-add :
    (m : Map String (List String)) (visited : List String) (n : String)
    → includes visited n ≡ false
    → length (ids_at m n) + left m (add visited n) ≤ left m visited
unfolding get
left-add [] visited n new = omega arith
left-add ((k, ids) ∷ m) visited n new = ground (
  arith,
  left-add m visited n new,
  left-add_le m visited n,
  includes-add visited n k,
  string_eq.beq_iff k n,
  string_eq.beq_iff n k,
)

left-count_ids : (m : Map String (List String)) → left m [] ≡ count_ids m
left-count_ids [] = refl
left-count_ids ((k, ids) ∷ m) = omega (arith, left-count_ids m)

length-items_for :
    (edges : Map String GraphEdge) (visited : List String) (p : GraphPath) (ids : List String)
    → length (items_for visited p (edges_of edges ids)) ≤ length ids
unfolding edges_of cons_edge
length-items_for edges visited p [] = omega arith
length-items_for edges visited p (k ∷ ids) = elim (Option-cases (get edges k)) [
  | inl absent ↦ rw absent (omega (arith, length-items_for edges visited p ids))
  | inr (e, found) ↦ rw found (ground (arith, length-items_for edges visited p ids))
]

module _ (g : Graph) (source target : String) (max_depth : ℕ) where
  -- What the search answers.
  abbrev pub IsAnswer : Option GraphPath → Type 0
  IsAnswer none = Unit
  IsAnswer (some p) = Walk g source target p × (p.steps ≤ max_depth)

  abbrev IsSound : ℕ → Round → Type 0
  IsSound n (answer o) = IsAnswer o
  IsSound n (next queue visited) =
      All (IsItem g source max_depth) queue × (length queue + left g.outgoing_edges visited < n)

  -- The queue after a new node.
  expand-IsSound :
      (node : String) (p : GraphPath) (queue : List Item) (visited : List String)
      → All (IsItem g source max_depth) ((node, p) ∷ queue)
      → p.steps < max_depth
      → includes visited node ≡ false
      → IsSound
          (length ((node, p) ∷ queue) + left g.outgoing_edges visited)
          (expand g node p queue visited)
  unfolding expand
  expand-IsSound node p queue visited h lt new =
      let ids = ids_at g.outgoing_edges node in
      let items = items_for (add visited node) p (edges_of g.edges ids) in
      (
        All-append (IsItem g source max_depth) queue items h.1
            (items_for-IsItem g source max_depth (add visited node) node p ids h.0.0 lt (λ k i. i)),
        omega (
          arith,
          length-append queue items,
          length-items_for g.edges (add visited node) p ids,
          left-add g.outgoing_edges visited node new,
        ),
      )

  round-IsSound :
      (queue : List Item) (visited : List String)
      → All (IsItem g source max_depth) queue
      → IsSound
          (length queue + left g.outgoing_edges visited)
          (round g target max_depth queue visited)
  unfolding round
  round-IsSound [] visited h = tt
  round-IsSound ((node, p) ∷ queue) visited h = elim (Bool-cases (node == target)) [
    | inl found ↦
        rw (found, round)
          (subst (λ n. Walk g source n p) ((string_eq.beq_iff node target).0 found) h.0.0, h.0.1)
    | inr other ↦ elim (Bool-cases (leb max_depth p.steps)) [
      | inl deep ↦ rw (other, deep, round) (h.1, omega arith)
      | inr shallow ↦ elim (Bool-cases (includes visited node)) [
        | inl seen ↦ rw (other, shallow, seen, round) (h.1, omega arith)
        | inr new ↦
            rw (other, shallow, new, round)
              (expand-IsSound node p queue visited h (ground (arith, shallow)) new)
      ]
    ]
  ]

  abbrev Ends : Option (Option GraphPath) → Type 0
  Ends found = (r : Option GraphPath) × (found ≡ some r) × IsAnswer r

  go_on-Ends :
      (n : ℕ) (again : List Item → List String → Option (Option GraphPath)) (r : Round)
      → IsSound n r
      → ((queue : List Item) (visited : List String)
          → All (IsItem g source max_depth) queue
          → length queue + left g.outgoing_edges visited < n
          → Ends (again queue visited))
      → Ends (go_on again r)
  go_on-Ends n again (answer o) h k = (o, refl, h)
  go_on-Ends n again (next queue visited) h k = k queue visited h.0 h.1

  search-Ends :
      (fuel : ℕ) (queue : List Item) (visited : List String)
      → All (IsItem g source max_depth) queue
      → length queue + left g.outgoing_edges visited < fuel
      → Ends (search g target max_depth fuel queue visited)
  unfolding search
  search-Ends zero queue visited h lt = absurd (omega arith)
  search-Ends (suc fuel) queue visited h lt =
      go_on-Ends _ (search g target max_depth fuel) (round g target max_depth queue visited)
        (round-IsSound queue visited h)
        (λ queue' visited' h' lt'. search-Ends fuel queue' visited' h' (omega arith))

-- The search for a path ends on every graph, cycles included, and a path that it finds is a walk
-- from the source to the target along listed edges of the graph, of no more than `maxDepth` edges.
pub find_path_ends :
    (g : Graph) (source target : String) (max_depth : ℕ)
    → (r : Option GraphPath) × (find_path g source target max_depth ≡ some r)
      × IsAnswer g source target max_depth r
unfolding find_path
find_path_ends g source target max_depth = elim (Bool-cases (source == target)) [
  | inl same ↦ (
    some (record { nodes = source ∷ []; edges = []; steps = 0 }),
    rw same refl,
    (
      subst (λ n. Walk g source n (record { nodes = source ∷ []; edges = []; steps = 0 }))
          ((string_eq.beq_iff source target).0 same) here,
      omega arith,
    ),
  )
  | inr apart ↦ rw apart (
      search-Ends g source target max_depth _
        ((source, record { nodes = source ∷ []; edges = []; steps = 0 }) ∷ []) []
        ((here, omega arith), tt) (omega (arith, left-count_ids g.outgoing_edges)))
]
