-- ===== src/Graph.antt =====
-- packages/graphiti/src/InMemoryGraphiti.ts: nodes and edges by their ids, with the ids of the edges
-- that leave and enter each node. The types of nodes and edges are their names; a property's value
-- and a weight, which are only copied or compared, are texts. A handler only observes. The clock's
-- reading is an argument.
pub mod Links
pub mod Paths
mod Tests
use agent_os.Base.{
  nat_eq, ℕ, zero, suc, ◌+◌, ◌-◌, String, string_eq, Bool, true, false, not, ◌&&◌, List, [], ◌∷◌,
  ◌++◌, Option, none, some, ◌==◌, if◌then◌else◌, includes, keep, length, take, drop, leb, add,
}
use agent_os.Base.Map.{Map, get, put, remove, has, keys, values, size}

pub record GraphNode : Type 0 where
  pub id : String
  pub node_type : String
  pub label : String
  pub properties : Map String String
  pub created_at : ℕ
  pub updated_at : ℕ

pub record GraphEdge : Type 0 where
  pub id : String
  pub edge_type : String
  pub source_id : String
  pub target_id : String
  pub weight : String
  pub properties : Map String String
  pub created_at : ℕ

pub data GraphChange : Type 0 where
  node_added node_updated node_removed edge_added edge_removed :
      (timestamp : ℕ) → (id : String) → GraphChange

pub record Graph : Type 0 where
  pub nodes : Map String GraphNode
  pub edges : Map String GraphEdge
  pub outgoing_edges : Map String (List String)
  pub incoming_edges : Map String (List String)
  pub changes : List GraphChange
  pub node_counter : ℕ
  pub edge_counter : ℕ

unfoldable pub empty_graph : Graph
empty_graph = record {
  nodes = [];
  edges = [];
  outgoing_edges = [];
  incoming_edges = [];
  changes = [];
  node_counter = 0;
  edge_counter = 0;
}

-- The times in `node` are those of the call.
unfoldable pub add_node : ℕ → GraphNode → Graph → Graph
add_node now node g = record g {
  nodes = put g.nodes node.id (record node { created_at = now; updated_at = now });
  changes = g.changes ++ node_added now node.id ∷ [];
  node_counter = g.node_counter + 1;
}

unfoldable pub get_node : Graph → String → Option GraphNode
get_node g id = get g.nodes id

-- `{ ...existing, ...properties }`
abbrev merged : Map String String → Map String String → Map String String
merged m [] = m
merged m ((k, v) ∷ more) = merged (put m k v) more

update_found : ℕ → Map String String → Option GraphNode → String → Graph → Graph
update_found now properties none id g = g
update_found now properties (some node) id g = record g {
  nodes =
      put g.nodes id
        (record node { properties = merged node.properties properties; updated_at = now });
  changes = g.changes ++ node_updated now id ∷ [];
}

unfoldable pub update_node : ℕ → String → Map String String → Graph → Graph
unfolding update_found
update_node now id properties g = update_found now properties (get g.nodes id) id g

abbrev or_no_ids : Option (List String) → List String
or_no_ids none = []
or_no_ids (some ids) = ids

-- `links.get(nodeId) ?? []`
abbrev pub ids_at : Map String (List String) → String → List String
ids_at links node_id = or_no_ids (get links node_id)

abbrev pub link : Map String (List String) → String → String → Map String (List String)
link links node_id edge_id = put links node_id (ids_at links node_id ++ edge_id ∷ [])

unfoldable pub add_edge : ℕ → GraphEdge → Graph → Graph
add_edge now edge g = record g {
  edges = put g.edges edge.id (record edge { created_at = now });
  outgoing_edges = link g.outgoing_edges edge.source_id edge.id;
  incoming_edges = link g.incoming_edges edge.target_id edge.id;
  changes = g.changes ++ edge_added now edge.id ∷ [];
  edge_counter = g.edge_counter + 1;
}

unfoldable pub get_edge : Graph → String → Option GraphEdge
get_edge g id = get g.edges id

-- `splice` at the first place of the id
abbrev pub remove_first : String → List String → List String
remove_first id [] = []
remove_first id (x ∷ xs) = let rest = remove_first id xs in if x == id then xs else x ∷ rest

abbrev unlinked :
    Option (List String) → String → String → Map String (List String) → Map String (List String)
unlinked none node_id edge_id links = links
unlinked (some ids) node_id edge_id links = put links node_id (remove_first edge_id ids)

abbrev pub unlink : Map String (List String) → String → String → Map String (List String)
unlink links node_id edge_id = unlinked (get links node_id) node_id edge_id links

-- The graph after it, and whether the edge was there.
abbrev pub remove_found_edge : ℕ → Option GraphEdge → String → Graph → Graph × Bool
remove_found_edge now none id g = (g, false)
remove_found_edge now (some edge) id g = (
  record g {
    edges = remove g.edges id;
    outgoing_edges = unlink g.outgoing_edges edge.source_id id;
    incoming_edges = unlink g.incoming_edges edge.target_id id;
    changes = g.changes ++ edge_removed now id ∷ [];
  },
  true,
)

unfoldable pub remove_edge : ℕ → String → Graph → Graph × Bool
remove_edge now id g = remove_found_edge now (get g.edges id) id g

unfoldable pub remove_edges : ℕ → List String → Graph → Graph
unfolding remove_edge
remove_edges now [] g = g
remove_edges now (id ∷ ids) g = remove_edges now ids (remove_edge now id g).0

-- The ids are those before the first edge is removed.
pub remove_found_node : ℕ → Option GraphNode → String → Graph → Graph × Bool
unfolding remove_edges
remove_found_node now none id g = (g, false)
remove_found_node now (some node) id g =
    let g' = remove_edges now (ids_at g.outgoing_edges id ++ ids_at g.incoming_edges id) g in
    (
      record g' {
        nodes = remove g'.nodes id;
        outgoing_edges = remove g'.outgoing_edges id;
        incoming_edges = remove g'.incoming_edges id;
        changes = g'.changes ++ node_removed now id ∷ [];
      },
      true,
    )

unfoldable pub remove_node : ℕ → String → Graph → Graph × Bool
unfolding remove_found_node
remove_node now id g = remove_found_node now (get g.nodes id) id g

pub data Direction : Type 0 where
  outgoing incoming both : Direction

pub cons_edge : Option GraphEdge → List GraphEdge → List GraphEdge
cons_edge none es = es
cons_edge (some e) es = e ∷ es

-- The edges of the ids that are ids of edges.
pub edges_of : Map String GraphEdge → List String → List GraphEdge
unfolding cons_edge
edges_of edges [] = []
edges_of edges (id ∷ ids) = cons_edge (get edges id) (edges_of edges ids)

unfoldable pub get_edges : Graph → String → Direction → List GraphEdge
unfolding edges_of
get_edges g node_id outgoing = edges_of g.edges (ids_at g.outgoing_edges node_id)
get_edges g node_id incoming = edges_of g.edges (ids_at g.incoming_edges node_id)
get_edges g node_id both =
    edges_of g.edges (ids_at g.outgoing_edges node_id)
    ++ edges_of g.edges (ids_at g.incoming_edges node_id)

-- The newest `limit` changes; a limit of 0 gives them all, as `slice(-0)` does.
unfoldable pub get_changes : Graph → ℕ → List GraphChange
get_changes g limit = if limit == 0 then g.changes else drop (length g.changes - limit) g.changes

unfoldable pub clear_graph : Graph → Graph
clear_graph g = empty_graph

unfoldable pub get_node_count : Graph → ℕ
get_node_count g = size g.nodes

unfoldable pub get_edge_count : Graph → ℕ
get_edge_count g = size g.edges

-- A call of a method that changes the graph.
pub data Operation : Type 0 where
  insert_node : ℕ → GraphNode → Operation
  change_node : ℕ → String → Map String String → Operation
  delete_node : ℕ → String → Operation
  insert_edge : ℕ → GraphEdge → Operation
  delete_edge : ℕ → String → Operation
  reset : Operation

unfoldable pub apply : Operation → Graph → Graph
apply (insert_node now node) g = add_node now node g
apply (change_node now id properties) g = update_node now id properties g
apply (delete_node now id) g = (remove_node now id g).0
apply (insert_edge now edge) g = add_edge now edge g
apply (delete_edge now id) g = (remove_edge now id g).0
apply reset g = clear_graph g

unfoldable pub apply_all : List Operation → Graph → Graph
apply_all [] g = g
apply_all (o ∷ os) g = apply_all os (apply o g)
