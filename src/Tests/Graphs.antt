-- ===== src/Tests/Graphs.antt =====
-- A triangle of accounts with a tail, partitioned into two shards.
use blockchain_sharding.Base.{
  ℕ, ◌+◌, ◌≡◌, refl, none, some, [], ◌∷◌, Bytes, Dict, arith, count, if◌then◌else◌, ℤ, pos, ltb_ℤ,
  ◌==◌, zero, suc,
}
use blockchain_sharding.Partition.Graph.{Vertex, vertex_eq, Graph, neighbors, add_edge}
use blockchain_sharding.Partition.Undirected.{IsUndirected, add_edge-IsUndirected}
use blockchain_sharding.Partition.State.{Floats, ClpaState, shard_of}
use blockchain_sharding.Partition.Propagation.{clpa_partition}
use blockchain_sharding.Partition.Totals.{HasShards}
use blockchain_sharding.Partition.Counted.{IsCounted, KeepsAccounts}
use blockchain_sharding.Partition.Occupied.{clpa_partition-KeepsAccounts}
use blockchain_sharding.Partition.Moves.{changed_to, KeepsShards}
use blockchain_sharding.Partition.Result.{clpa_partition-changed_to}
use blockchain_sharding.Tests.World.{alice, bob, carol}

abbrev vertex : Bytes → Vertex
vertex a = record { addr = a }

abbrev no_edges : Graph
no_edges = record { vertex_set = []; edge_set = none }

abbrev one_edge : Graph
one_edge = add_edge no_edges (vertex alice) (vertex bob)

no_edges-IsUndirected : IsUndirected no_edges
no_edges-IsUndirected a b = refl

add_edge-IsUndirected_example :
    IsUndirected one_edge
    × (count (λ x. x == vertex bob) (neighbors one_edge (vertex alice))
        ≡ 0 + (if vertex alice == vertex bob then 2 else 1))
add_edge-IsUndirected_example =
    add_edge-IsUndirected no_edges (vertex alice) (vertex bob) no_edges-IsUndirected

-- Scores as integers: no division, and no penalty.
abbrev integers : Floats
integers = record {
  Float = ℤ;
  of_int = λ z. z;
  div = λ a b. a;
  mul = λ a b. a;
  sub = λ a b. a;
  less = ltb_ℤ;
}

abbrev two_edges : Graph
two_edges = add_edge one_edge (vertex carol) (vertex bob)

abbrev halves : Dict Vertex ℕ
halves = (vertex alice, 0) ∷ (vertex bob, 1) ∷ (vertex carol, 0) ∷ []

abbrev before : ClpaState integers
before = record {
  net_graph = two_edges;
  partition_map = halves;
  edges2shard = [];
  vertexs_num_in_shard = pos 2 ∷ pos 1 ∷ [];
  weight_penalty = pos 0;
  min_edges2shard = pos 0;
  max_iterations = 2;
  cross_shard_edge_num = pos 0;
  shard_num = 2;
  graph_hash = [];
}

halves-HasShards : HasShards halves 2
halves-HasShards v = ground arith

clpa_partition-changed_to_example :
    (cs' : ClpaState integers) × (res : Dict Bytes ℕ) × (cross : ℤ) × (clpa_partition integers
        (λ i. vertex alice ∷ vertex bob ∷ vertex carol ∷ [])
        before
      ≡ some (cs', res, cross))
    × ((v : Vertex) → shard_of cs'.partition_map v ≡ changed_to res halves v)
    × KeepsShards (pos 2 ∷ pos 1 ∷ []) cs'.vertexs_num_in_shard
    × HasShards cs'.partition_map 2
clpa_partition-changed_to_example =
    clpa_partition-changed_to integers (λ i. vertex alice ∷ vertex bob ∷ vertex carol ∷ []) before
      refl halves-HasShards

halves-IsCounted : IsCounted halves (pos 2 ∷ pos 1 ∷ [])
halves-IsCounted zero x e = ground (arith, e)
halves-IsCounted (suc zero) x e = ground (arith, e)
halves-IsCounted (suc (suc s)) x e = absurd (ground (arith, e))

clpa_partition-KeepsAccounts_example :
    (cs' : ClpaState integers) × (res : Dict Bytes ℕ) × (cross : ℤ) × (clpa_partition integers
        (λ i. vertex alice ∷ vertex bob ∷ vertex carol ∷ [])
        before
      ≡ some (cs', res, cross))
    × IsCounted cs'.partition_map cs'.vertexs_num_in_shard
    × KeepsAccounts halves cs'.partition_map
clpa_partition-KeepsAccounts_example =
    clpa_partition-KeepsAccounts integers (λ i. vertex alice ∷ vertex bob ∷ vertex carol ∷ [])
      before refl halves-HasShards halves-IsCounted (λ i. (refl, (refl, (refl, tt))))
