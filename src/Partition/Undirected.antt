-- ===== src/Partition/Undirected.antt =====
-- The graph of the accounts is undirected (partition/graph.go, AddEdge).
use blockchain_sharding.Base.{
  ℕ, ◌+◌, [], ◌∷◌, ◌++◌, if◌then◌else◌, ◌≡◌, ap, ◌==◌, count, count-append, arith, Bool-cases, inl,
  inr, lookup_or-insert, ◌∙◌,
}
use blockchain_sharding.Partition.Graph.{
  Vertex, vertex_eq, vertex_beq_iff, Graph, neighbors, edges_of, add_vertex, append_neighbor,
  ensure_vertex, add_edge,
}

-- As many edges from one vertex to another as back.
abbrev pub IsUndirected : Graph → Type 0
IsUndirected g =
    (a b : Vertex) → count (λ x. x == b) (neighbors g a) ≡ count (λ x. x == a) (neighbors g b)

abbrev new_edge : Vertex → Vertex → Vertex → Vertex → ℕ
new_edge u v a b = if u == a then (if v == b then 1 else 0) else 0

append_neighbor-count :
    (g : Graph) (u v a b : Vertex)
    → count (λ x. x == b) (neighbors (append_neighbor g u v) a)
      ≡ count (λ x. x == b) (neighbors g a) + new_edge u v a b
append_neighbor-count g u v a b =
    let moved : neighbors (append_neighbor g u v) a
        ≡ (if u == a then neighbors g u ++ v ∷ [] else neighbors g a) =
      lookup_or-insert u a [] (neighbors g u ++ v ∷ []) (edges_of g) in
    elim (Bool-cases (u == a)) [
      | inl e ↦ ground (
        arith,
        moved,
        e,
        count-append (λ x. x == b) (neighbors g u) (v ∷ []),
        ap (λ k. count (λ x. x == b) (neighbors g k)) ((vertex_beq_iff u a).0 e),
      )
      | inr e ↦ ground (arith, moved, e)
    ]

ensure_vertex-neighbors :
    (g : Graph) (v a : Vertex) → neighbors (ensure_vertex g v) a ≡ neighbors g a
unfolding add_vertex
ensure_vertex-neighbors g v a = ground arith

-- An edge between u and v adds one step from u to v and one from v to u, and nothing else.
add_edge-count :
    (g : Graph) (u v a b : Vertex)
    → count (λ x. x == b) (neighbors (add_edge g u v) a)
      ≡ count (λ x. x == b) (neighbors g a) + new_edge u v a b + new_edge v u a b
unfolding add_edge
add_edge-count g u v a b =
    let h = ensure_vertex (ensure_vertex g u) v in
    let same : neighbors h a ≡ neighbors g a =
      ensure_vertex-neighbors (ensure_vertex g u) v a ∙ ensure_vertex-neighbors g u a in
    omega (
      arith,
      append_neighbor-count (append_neighbor h u v) v u a b,
      append_neighbor-count h u v a b,
      ap (count (λ x. x == b)) same,
    )

-- Adding an edge between two accounts, be they new, known, or one and the same, to a graph that has
-- as many edges from each account to each other as back, makes a graph of this kind, which has one
-- more edge from the first to the second account, and two more where they are one and the same.
pub add_edge-IsUndirected :
    (g : Graph) (u v : Vertex)
    → IsUndirected g
    → IsUndirected (add_edge g u v)
      × (count (λ x. x == v) (neighbors (add_edge g u v) u)
          ≡ count (λ x. x == v) (neighbors g u) + (if u == v then 2 else 1))
add_edge-IsUndirected g u v h = (
  λ a b. ground (arith, h a b, add_edge-count g u v a b, add_edge-count g u v b a),
  ground (
    arith,
    add_edge-count g u v u v,
    vertex_beq_iff u u,
    vertex_beq_iff v v,
    vertex_beq_iff u v,
    vertex_beq_iff v u,
  ),
)
