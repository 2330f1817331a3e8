-- ===== src/Partition/Graph.antt =====
-- partition/graph.go: the graph of the accounts that transact with each other.
use blockchain_sharding.Base.{
  Bool, true, Option, none, some, List, [], ◌∷◌, ◌++◌, Bytes, Dict, Eq, lookup_or, insert, contains,
  bytes_beq, bytes_beq_iff, if◌then◌else◌, map, ◌≡◌, ap, ◌↔◌,
}

pub record Vertex : Type 0 where
  pub addr : Bytes

pub vertex_beq_iff : (u v : Vertex) → (bytes_beq u.addr v.addr ≡ true) ↔ (u ≡ v)
vertex_beq_iff u v = (
  λ h. ap (λ a. record { addr = a }) ((bytes_beq_iff u.addr v.addr).0 h),
  λ h. (bytes_beq_iff u.addr v.addr).1 (ap (λ x. x.addr) h),
)

instance abbrev pub vertex_eq : Eq Vertex
vertex_eq = record { beq = λ u v. bytes_beq u.addr v.addr; beq_iff = vertex_beq_iff }

-- `none` is a nil map of edges.
pub record Graph : Type 0 where
  pub vertex_set : Dict Vertex Bool
  pub edge_set : Option (Dict Vertex (List Vertex))

unfoldable pub construct_vertex : Bytes → Vertex
construct_vertex s = record { addr = s }

abbrev pub edges_of : Graph → Dict Vertex (List Vertex)
edges_of g = elim g.edge_set [ none ↦ [] | some m ↦ m ]

-- `g.EdgeSet[v]`
abbrev pub neighbors : Graph → Vertex → List Vertex
neighbors g v = lookup_or v [] (edges_of g)

unfoldable pub add_vertex : Graph → Vertex → Graph
add_vertex g v = record g { vertex_set = insert v true g.vertex_set }

-- `g.EdgeSet[u] = append(g.EdgeSet[u], v)`
abbrev pub append_neighbor : Graph → Vertex → Vertex → Graph
append_neighbor g u v = record g {
  edge_set = some (insert u (neighbors g u ++ v ∷ []) (edges_of g));
}

abbrev pub ensure_vertex : Graph → Vertex → Graph
ensure_vertex g v = if contains v g.vertex_set then g else add_vertex g v

unfoldable pub add_edge : Graph → Vertex → Vertex → Graph
unfolding add_vertex
add_edge g u v = append_neighbor (append_neighbor (ensure_vertex (ensure_vertex g u) v) u v) v u

-- The vertices in the order of `range`.
abbrev pub vertices : Graph → List Vertex
vertices g = map (λ e. e.0) g.vertex_set

abbrev pub copy_vertices : List Vertex → Dict Vertex Bool → Dict Vertex Bool
copy_vertices [] m = m
copy_vertices (v ∷ vs) m = copy_vertices vs (insert v true m)

abbrev pub copy_edges : Graph → List Vertex → Dict Vertex (List Vertex) → Dict Vertex (List Vertex)
copy_edges src [] m = m
copy_edges src (v ∷ vs) m = copy_edges src vs (insert v (neighbors src v) m)

-- A source without edges leaves those of the destination.
unfoldable pub copy_graph : Graph → Graph → Graph
copy_graph dst src = record {
  vertex_set = copy_vertices (vertices src) [];
  edge_set = elim src.edge_set [
    | none ↦ dst.edge_set
    | some _ ↦ some (copy_edges src (vertices src) [])
  ];
}
