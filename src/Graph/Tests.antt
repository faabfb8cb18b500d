-- ===== src/Graph/Tests.antt =====
-- The theorems about the graph at a cycle of two nodes.
use agent_os.Graph.{
  GraphNode, GraphEdge, Graph, empty_graph, add_node, add_edge, remove_edge, remove_edges,
  remove_found_node, remove_node, get_edges, edges_of, outgoing, get_edge, get_changes, Operation,
  insert_node, insert_edge, apply, apply_all,
}
use agent_os.Graph.Links.{IsLinked, IsUntouched, remove_node-IsUntouched}
use agent_os.Graph.Paths.{GraphPath, find_path}
use agent_os.Graph.Paths.Walks.{IsAnswer, find_path_ends}
use agent_os.Base.{String, string_eq, List, [], ◌∷◌, Option, none, some, ◌≡◌, refl}
use agent_os.Base.Map.{get, put, remove}

abbrev node_named : String → GraphNode
node_named id = record {
  id = id;
  node_type = "agent";
  label = id;
  properties = [];
  created_at = 0;
  updated_at = 0;
}

abbrev edge_from : String → String → String → GraphEdge
edge_from id source target = record {
  id = id;
  edge_type = "uses";
  source_id = source;
  target_id = target;
  weight = "1";
  properties = [];
  created_at = 0;
}

abbrev calls : List Operation
calls =
    insert_node 1 (node_named "a")
    ∷ insert_node 1 (node_named "b")
    ∷ insert_edge 2 (edge_from "ab" "a" "b")
    ∷ insert_edge 2 (edge_from "ba" "b" "a")
    ∷ []

-- What the runs below compute with.
program : Unit {0}
unfolding get put remove empty_graph add_node add_edge remove_edge remove_edges remove_found_node
    remove_node get_edges edges_of get_edge get_changes apply apply_all
program = tt

abbrev stored : GraphNode
stored = record (node_named "b") { created_at = 1; updated_at = 1 }

has_b : get (apply_all calls empty_graph).nodes "b" ≡ some stored
unfolding program
has_b = refl

remove_node-IsUntouched_example :
    let g = (remove_node 3 "b" (apply_all calls empty_graph)).0 in
    (get g.nodes "b" ≡ none) × IsUntouched g "b" × IsLinked g
remove_node-IsUntouched_example = remove_node-IsUntouched calls 3 "b" stored has_b

find_path_ends_example :
    (r : Option GraphPath) × (find_path (apply_all calls empty_graph) "a" "b" 10 ≡ some r)
    × IsAnswer (apply_all calls empty_graph) "a" "b" 10 r
find_path_ends_example = find_path_ends (apply_all calls empty_graph) "a" "b" 10

-- An edge whose id is taken moves to its new nodes, but the old ones still list it: the old source
-- gives it as an outgoing edge, and removing the old source removes it.
abbrev moved_edge : Graph
moved_edge =
    apply_all
      (insert_node 1 (node_named "a")
        ∷ insert_edge 2 (edge_from "e" "a" "b")
        ∷ insert_edge 3 (edge_from "e" "c" "d")
        ∷ [])
      empty_graph

still_listed :
    (get_edges moved_edge "a" outgoing ≡ record (edge_from "e" "c" "d") { created_at = 3 } ∷ [])
    × (get_edge (remove_node 4 "a" moved_edge).0 "e" ≡ none)
unfolding program
still_listed = (refl, refl)
