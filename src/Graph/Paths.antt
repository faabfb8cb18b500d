-- ===== src/Graph/Paths.antt =====
-- packages/graphiti/src/InMemoryGraphiti.ts, `findPath`: a breadth-first search. The `while` loop
-- takes fuel, one unit for each item of the queue.
pub mod Walks
use agent_os.Graph.{GraphEdge, Graph, Direction, outgoing, ids_at, edges_of, get_edges}
use agent_os.Base.{
  ℕ, zero, suc, ◌+◌, String, string_eq, Bool, true, false, List, [], ◌∷◌, ◌++◌, Option, none, some,
  ◌==◌, if◌then◌else◌, includes, add, length, leb,
}
use agent_os.Base.Map.{Map}

pub record GraphPath : Type 0 where
  pub nodes : List String
  pub edges : List String
  pub steps : ℕ

-- An item of the queue: the node that the path leads to, and the path.
abbrev pub Item : Type 0
Item = String × GraphPath

abbrev pub longer : GraphEdge → GraphPath → GraphPath
longer e p = record {
  nodes = p.nodes ++ e.target_id ∷ [];
  edges = p.edges ++ e.id ∷ [];
  steps = p.steps + 1;
}

-- The items for the edges whose targets were not visited.
abbrev pub items_for : List String → GraphPath → List GraphEdge → List Item
items_for visited p [] = []
items_for visited p (e ∷ es) =
    let rest = items_for visited p es in
    if includes visited e.target_id then rest else (e.target_id, longer e p) ∷ rest

-- The end of a round: the answer, or the queue and the visited nodes of the next.
pub data Round : Type 0 where
  answer : Option GraphPath → Round
  next : List Item → List String → Round

-- A node that was not visited.
pub expand : Graph → String → GraphPath → List Item → List String → Round
expand g node p queue visited =
    next (queue ++ items_for (add visited node) p (edges_of g.edges (ids_at g.outgoing_edges node)))
      (add visited node)

pub round : Graph → String → ℕ → List Item → List String → Round
round g target max_depth [] visited = answer none
round g target max_depth ((node, p) ∷ queue) visited =
    if node == target
    then answer (some p)
    else if leb max_depth p.steps
    then next queue visited
    else if includes visited node
    then next queue visited
    else expand g node p queue visited

abbrev pub go_on :
    (List Item → List String → Option (Option GraphPath)) → Round → Option (Option GraphPath)
go_on search (answer o) = some o
go_on search (next queue visited) = search queue visited

-- `none` is that the fuel ran out.
pub search : Graph → String → ℕ → ℕ → List Item → List String → Option (Option GraphPath)
unfolding round expand
search g target max_depth zero queue visited = none
search g target max_depth (suc fuel) queue visited =
    go_on (search g target max_depth fuel) (round g target max_depth queue visited)

-- The number of the ids of edges, by the node that they leave.
abbrev pub count_ids : Map String (List String) → ℕ
count_ids [] = 0
count_ids ((n, ids) ∷ m) = length ids + count_ids m

-- An item for the source, one for each id of an edge, and a round that finds the queue empty.
unfoldable pub find_path : Graph → String → String → ℕ → Option (Option GraphPath)
unfolding search
find_path g source target max_depth =
    if source == target
    then some (some (record { nodes = source ∷ []; edges = []; steps = 0 }))
    else search g target max_depth (count_ids g.outgoing_edges + 2)
        ((source, record { nodes = source ∷ []; edges = []; steps = 0 }) ∷ []) []
