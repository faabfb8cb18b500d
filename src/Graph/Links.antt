-- ===== src/Graph/Links.antt =====
-- That the edges are kept at both their nodes, and that a node that is removed leaves no edge.
use agent_os.Graph.{
  GraphNode, GraphEdge, Graph, empty_graph, add_node, update_found, update_node, ids_at, link,
  add_edge, remove_first, unlink, remove_found_edge, remove_edge, remove_edges, remove_found_node,
  remove_node, clear_graph, Operation, insert_node, change_node, delete_node, insert_edge,
  delete_edge, reset, apply, apply_all,
}
use agent_os.Base.{
  ℕ, String, string_eq, true, false, ◌||◌, ◌&&◌, List, [], ◌∷◌, ◌++◌, Option, none, some, ◌==◌, ◌≡◌,
  refl, ◌∙◌, sym, ap, subst, if◌then◌else◌, includes, includes-append, arith, Bool-cases,
  Option-cases, inl, inr, beq_refl,
}
use mathlib.Core.Option.{some-injective}
use agent_os.Base.Map.{Map, get, put, remove, get-put, get-remove}

-- The id of each edge is among those of its node, where `node` is one of the edge's two nodes.
abbrev pub Lists : (GraphEdge → String) → Map String GraphEdge → Map String (List String) → Type 0
Lists node edges links =
    (k : String) (e : GraphEdge) → get edges k ≡ some e → includes (ids_at links (node e)) k ≡ true

pub record IsLinked (g : Graph) : Type 0 where
  pub leaves : Lists (λ e. e.source_id) g.edges g.outgoing_edges
  pub enters : Lists (λ e. e.target_id) g.edges g.incoming_edges

-- The part of the links that is about other edges than `id`.
includes-remove_first :
    (id k : String) (xs : List String)
    → (id == k) ≡ false
    → includes (remove_first id xs) k ≡ includes xs k
includes-remove_first id k [] ne = refl
includes-remove_first id k (x ∷ xs) ne = ground (
  arith,
  includes-remove_first id k xs ne,
  string_eq.beq_iff x id,
  string_eq.beq_iff x k,
  string_eq.beq_iff id k,
)

includes-link :
    (links : Map String (List String)) (n id m k : String)
    → includes (ids_at (link links n id) m) k ≡ (includes (ids_at links m) k || (n == m && id == k))
includes-link links n id m k = ground (
  arith,
  get-put links n (ids_at links n ++ id ∷ []) m,
  includes-append (ids_at links n) (id ∷ []) k,
  string_eq.beq_iff n m,
)

includes-unlink :
    (links : Map String (List String)) (n id m k : String)
    → (id == k) ≡ false
    → includes (ids_at (unlink links n id) m) k ≡ includes (ids_at links m) k
includes-unlink links n id m k ne = elim (Option-cases (get links n)) [
  | inl absent ↦ rw absent refl
  | inr (ids, found) ↦ rw found (
      ground (
        arith,
        get-put links n (remove_first id ids) m,
        includes-remove_first id k ids ne,
        string_eq.beq_iff n m,
        found,
      ))
]

module _ (node : GraphEdge → String) (edges : Map String GraphEdge)
    (links : Map String (List String)) where
  put-Lists :
      (id : String) (edge : GraphEdge)
      → Lists node edges links
      → Lists node (put edges id edge) (link links (node edge) id)
  put-Lists id edge l k e h = elim (Bool-cases (id == k)) [
    | inl same ↦
        let is_new : edge ≡ e =
          some-injective _ _ (sym (get-put edges id edge k ∙ rw same refl) ∙ h) in
        includes-link links (node edge) id (node e) k
        ∙ ground (arith, same, ap node is_new, string_eq.beq_iff (node edge) (node e))
    | inr other ↦
        let old : get edges k ≡ some e = sym (get-put edges id edge k ∙ rw other refl) ∙ h in
        includes-link links (node edge) id (node e) k ∙ ground (arith, l k e old)
  ]

  remove-Lists :
      (id n : String) → Lists node edges links → Lists node (remove edges id) (unlink links n id)
  remove-Lists id n l k e h = elim (Bool-cases (id == k)) [
    | inl same ↦
        let gone : none ≡ some e = sym (get-remove edges id k ∙ rw same refl) ∙ h in absurd (cc)
    | inr other ↦
        let old : get edges k ≡ some e = sym (get-remove edges id k ∙ rw other refl) ∙ h in
        includes-unlink links n id (node e) k other ∙ l k e old
  ]

add_edge-IsLinked :
    (now : ℕ) (edge : GraphEdge) (g : Graph) → IsLinked g → IsLinked (add_edge now edge g)
unfolding add_edge
add_edge-IsLinked now edge g l = record {
  leaves =
      put-Lists (λ e. e.source_id) g.edges g.outgoing_edges edge.id
        (record edge { created_at = now }) l.leaves;
  enters =
      put-Lists (λ e. e.target_id) g.edges g.incoming_edges edge.id
        (record edge { created_at = now }) l.enters;
}

remove_found_edge-IsLinked :
    (now : ℕ) (o : Option GraphEdge) (id : String) (g : Graph)
    → IsLinked g
    → IsLinked (remove_found_edge now o id g).0
remove_found_edge-IsLinked now none id g l = l
remove_found_edge-IsLinked now (some edge) id g l = record {
  leaves = remove-Lists (λ e. e.source_id) g.edges g.outgoing_edges id edge.source_id l.leaves;
  enters = remove-Lists (λ e. e.target_id) g.edges g.incoming_edges id edge.target_id l.enters;
}

remove_edge-IsLinked :
    (now : ℕ) (id : String) (g : Graph) → IsLinked g → IsLinked (remove_edge now id g).0
unfolding remove_edge
remove_edge-IsLinked now id g l = remove_found_edge-IsLinked now (get g.edges id) id g l

remove_edges-IsLinked :
    (now : ℕ) (ids : List String) (g : Graph) → IsLinked g → IsLinked (remove_edges now ids g)
unfolding remove_edges
remove_edges-IsLinked now [] g l = l
remove_edges-IsLinked now (id ∷ ids) g l =
    remove_edges-IsLinked now ids (remove_edge now id g).0 (remove_edge-IsLinked now id g l)

-- What is left of the edges.
edges-remove_edge :
    (now : ℕ) (id k : String) (g : Graph)
    → get (remove_edge now id g).0.edges k ≡ (if id == k then none else get g.edges k)
unfolding remove_edge
edges-remove_edge now id k g = elim (Option-cases (get g.edges id)) [
  | inl absent ↦ rw absent (ground (arith, absent, string_eq.beq_iff id k))
  | inr (edge, found) ↦ rw found (get-remove g.edges id k)
]

edges-remove_edges :
    (now : ℕ) (ids : List String) (k : String) (g : Graph)
    → get (remove_edges now ids g).edges k ≡ (if includes ids k then none else get g.edges k)
unfolding remove_edges
edges-remove_edges now [] k g = refl
edges-remove_edges now (id ∷ ids) k g =
    edges-remove_edges now ids k (remove_edge now id g).0
    ∙ ground (arith, edges-remove_edge now id k g)

-- No edge leaves or enters the node.
abbrev pub IsUntouched : Graph → String → Type 0
IsUntouched g n =
    (k : String) (e : GraphEdge)
    → get g.edges k ≡ some e
    → ((e.source_id == n) ≡ false) × ((e.target_id == n) ≡ false)

-- An id that is not in the list is not that of an edge at the node.
not_at :
    (links : Map String (List String)) (ids : List String) (m n k : String)
    → includes (ids_at links m) k ≡ true
    → (includes (ids_at links n) k ≡ true → includes ids k ≡ true)
    → includes ids k ≡ false
    → (m == n) ≡ false
not_at links ids m n k listed covers out = elim (Bool-cases (m == n)) [
  | inl same ↦
      let is_n = (string_eq.beq_iff m n).0 same in
      let bad : true ≡ false =
        sym (covers (subst (λ m. includes (ids_at links m) k ≡ true) is_n listed)) ∙ out in
      absurd (cc)
  | inr other ↦ other
]

-- What is left when the edges of a node were removed.
left_edge :
    (now : ℕ) (ids : List String) (k : String) (e : GraphEdge) (g : Graph)
    → get (remove_edges now ids g).edges k ≡ some e
    → (includes ids k ≡ false) × (get g.edges k ≡ some e)
left_edge now ids k e g h =
    let r = sym (edges-remove_edges now ids k g) ∙ h in
    elim (Bool-cases (includes ids k)) [
      | inl there ↦ let bad : none ≡ some e = sym (rw there refl) ∙ r in absurd (cc)
      | inr out ↦ (out, sym (rw out refl) ∙ r)
    ]

remove_edges-IsUntouched :
    (now : ℕ) (n : String) (g : Graph)
    → IsLinked g
    → IsUntouched (remove_edges now (ids_at g.outgoing_edges n ++ ids_at g.incoming_edges n) g) n
remove_edges-IsUntouched now n g l k e h =
    let out = ids_at g.outgoing_edges n in
    let in_ids = ids_at g.incoming_edges n in
    let (apart, old) = left_edge now (out ++ in_ids) k e g h in
    (
      not_at g.outgoing_edges (out ++ in_ids) e.source_id n k (l.leaves k e old)
          (λ i. includes-append out in_ids k ∙ ground (arith, i)) apart,
      not_at g.incoming_edges (out ++ in_ids) e.target_id n k (l.enters k e old)
          (λ i. includes-append out in_ids k ∙ ground (arith, i)) apart,
    )

drop-Lists :
    (node : GraphEdge → String) (edges : Map String GraphEdge) (links : Map String (List String))
    (n : String)
    → ((k : String) (e : GraphEdge) → get edges k ≡ some e → (node e == n) ≡ false)
    → Lists node edges links
    → Lists node edges (remove links n)
drop-Lists node edges links n apart l k e h = ground (
  arith,
  get-remove links n (node e),
  apart k e h,
  l k e h,
  string_eq.beq_iff (node e) n,
  string_eq.beq_iff n (node e),
)

remove_found_node-IsLinked :
    (now : ℕ) (o : Option GraphNode) (n : String) (g : Graph)
    → IsLinked g
    → IsLinked (remove_found_node now o n g).0
unfolding remove_found_node
remove_found_node-IsLinked now none n g l = l
remove_found_node-IsLinked now (some node) n g l =
    let ids = ids_at g.outgoing_edges n ++ ids_at g.incoming_edges n in
    let g' = remove_edges now ids g in
    let l' = remove_edges-IsLinked now ids g l in
    let u = remove_edges-IsUntouched now n g l in
    record {
      leaves =
          drop-Lists (λ e. e.source_id) g'.edges g'.outgoing_edges n (λ k e h. (u k e h).0)
            l'.leaves;
      enters =
          drop-Lists (λ e. e.target_id) g'.edges g'.incoming_edges n (λ k e h. (u k e h).1)
            l'.enters;
    }

update_found-IsLinked :
    (now : ℕ) (properties : Map String String) (o : Option GraphNode) (id : String) (g : Graph)
    → IsLinked g
    → IsLinked (update_found now properties o id g)
unfolding update_found
update_found-IsLinked now properties none id g l = l
update_found-IsLinked now properties (some node) id g l = record {
  leaves = l.leaves;
  enters = l.enters;
}

empty_graph-IsLinked : IsLinked empty_graph
unfolding empty_graph get
empty_graph-IsLinked = record { leaves = λ k e h. absurd (cc); enters = λ k e h. absurd (cc) }

apply-IsLinked : (o : Operation) (g : Graph) → IsLinked g → IsLinked (apply o g)
unfolding apply add_node update_node remove_node clear_graph
apply-IsLinked (insert_node now node) g l = record { leaves = l.leaves; enters = l.enters }
apply-IsLinked (change_node now id properties) g l =
    update_found-IsLinked now properties (get g.nodes id) id g l
apply-IsLinked (delete_node now id) g l = remove_found_node-IsLinked now (get g.nodes id) id g l
apply-IsLinked (insert_edge now edge) g l = add_edge-IsLinked now edge g l
apply-IsLinked (delete_edge now id) g l = remove_edge-IsLinked now id g l
apply-IsLinked reset g l = empty_graph-IsLinked

pub apply_all-IsLinked : (os : List Operation) (g : Graph) → IsLinked g → IsLinked (apply_all os g)
unfolding apply_all
apply_all-IsLinked [] g l = l
apply_all-IsLinked (o ∷ os) g l = apply_all-IsLinked os (apply o g) (apply-IsLinked o g l)

-- In a graph that any calls have built from the empty one, removing a node that is there leaves
-- neither the node nor an edge from it or to it, and in the graph that is left the id of each edge
-- is still among the outgoing ones of its source and the incoming ones of its target.
pub remove_node-IsUntouched :
    (os : List Operation) (now : ℕ) (n : String) (node : GraphNode)
    → get (apply_all os empty_graph).nodes n ≡ some node
    → let g = (remove_node now n (apply_all os empty_graph)).0 in
      (get g.nodes n ≡ none) × IsUntouched g n × IsLinked g
unfolding remove_node remove_found_node
remove_node-IsUntouched os now n node found =
    let g = apply_all os empty_graph in
    let l = apply_all-IsLinked os empty_graph empty_graph-IsLinked in
    rw found (
      (get-remove _ n n ∙ rw (beq_refl n) refl),
      remove_edges-IsUntouched now n g l,
      remove_found_node-IsLinked now (some node) n g l,
    )
