-- ===== src/Partition/State.antt =====
-- partition/partition_CLPA.go: the state of the label propagation, its set-up, and the counts that
-- it keeps. Go's `float64` is a parameter. `none` is an index out of range or a `log.Panic`. The
-- order of a `range` over a map is that of its entries.
use blockchain_sharding.Base.{
  ℕ, zero, suc, ◌-◌, ◌/◌, Bool, not, Option, none, some, List, [], ◌∷◌, ◌++◌, Bytes, Dict, lookup,
  lookup_or, insert, contains, nat_beq, ltb_ℤ, if◌then◌else◌, ℤ, pos, negsuc, ◌+ℤ◌, sub_ℕ,
  replicate, length, take, ◌>>=◌, ◌&&◌, nat_eq,
}
use blockchain_sharding.Utils.{addr_to_shard}
use blockchain_sharding.Partition.Graph.{
  Vertex, vertex_eq, Graph, edges_of, neighbors, add_vertex, add_edge, copy_graph,
}

pub record Floats : Type 1 where
  pub Float : Type 0
  pub of_int : ℤ → Float
  pub div : Float → Float → Float
  pub mul : Float → Float → Float
  pub sub : Float → Float → Float
  pub less : Float → Float → Bool

-- `s[i] += d`
unfoldable pub bump : ℕ → ℤ → List ℤ → Option (List ℤ)
bump i d [] = none
bump zero d (x ∷ xs) = some ((x +ℤ d) ∷ xs)
bump (suc i) d (x ∷ xs) = elim (bump i d xs) [ none ↦ none | some rest ↦ some (x ∷ rest) ]

-- Division by two, towards zero.
abbrev pub half : ℤ → ℤ
half (pos n) = pos (n / 2)
half (negsuc n) = sub_ℕ 0 (suc n / 2)

abbrev pub sum : List ℤ → ℤ
sum [] = pos 0
sum (x ∷ xs) = x +ℤ sum xs

abbrev pub add_halves : List ℤ → List ℤ → List ℤ
add_halves [] inter = []
add_halves (x ∷ xs) [] = x ∷ xs
add_halves (x ∷ xs) (y ∷ ys) = (x +ℤ half y) ∷ add_halves xs ys

-- `math.MaxInt`
abbrev pub max_int : ℤ
max_int = pos 9223372036854775807

abbrev pub min_of : List ℤ → ℤ → ℤ
min_of [] least = least
min_of (x ∷ xs) least = min_of xs (if ltb_ℤ x least then x else least)

abbrev pub zeros : ℕ → List ℤ
zeros n = replicate n (pos 0)

abbrev pub shard_of : Dict Vertex ℕ → Vertex → ℕ
shard_of pm v = lookup_or v 0 pm

-- The edges from a vertex of a shard: those to another shard are counted for that one.
unfoldable pub count_edges :
    Dict Vertex ℕ → ℕ → List Vertex → List ℤ × List ℤ → Option (List ℤ × List ℤ)
unfolding bump
count_edges pm v_shard [] counts = some counts
count_edges pm v_shard (u ∷ us) (edges, inter) =
    let u_shard = shard_of pm u in
    if nat_beq v_shard u_shard
    then (elim (bump u_shard (pos 1) inter) [
      | none ↦ none
      | some inter' ↦ count_edges pm v_shard us (edges, inter')
    ])
    else (elim (bump u_shard (pos 1) edges) [
      | none ↦ none
      | some edges' ↦ count_edges pm v_shard us (edges', inter)
    ])

unfoldable pub count_all_edges :
    Dict Vertex ℕ → Dict Vertex (List Vertex) → List ℤ × List ℤ → Option (List ℤ × List ℤ)
unfolding count_edges
count_all_edges pm [] counts = some counts
count_all_edges pm ((v, us) ∷ rest) counts = elim (count_edges pm (shard_of pm v) us counts) [
  | none ↦ none
  | some counts' ↦ count_all_edges pm rest counts'
]

-- What moving a vertex from the shard `old` to `new` does to the counts, edge by edge.
unfoldable pub recount : Dict Vertex ℕ → ℕ → ℕ → List Vertex → List ℤ × ℤ → Option (List ℤ × ℤ)
unfolding bump
recount pm new old [] counts = some counts
recount pm new old (u ∷ us) (edges, cross) =
    let at_u = shard_of pm u in
    let step =
      if not (nat_beq at_u new) && not (nat_beq at_u old)
      then (bump new (pos 1) edges >>= λ up. bump old (negsuc 0) up >>= λ down. some (down, cross))
      else if nat_beq at_u new
      then (bump old (negsuc 0) edges >>= λ down. some (down, cross +ℤ negsuc 0))
      else (bump new (pos 1) edges >>= λ up. some (up, cross +ℤ pos 1)) in
    elim step [ none ↦ none | some counts ↦ recount pm new old us counts ]

module _ (fl : Floats) where
  open fl use {Float}

  pub record ClpaState : Type 0 where
    pub net_graph : Graph
    pub partition_map : Dict Vertex ℕ
    pub edges2shard : List ℤ
    pub vertexs_num_in_shard : List ℤ
    pub weight_penalty : Float
    pub min_edges2shard : ℤ
    pub max_iterations : ℕ
    pub cross_shard_edge_num : ℤ
    pub shard_num : ℕ
    pub graph_hash : Bytes

  -- The counts of the edges to and inside the shards, put into the state.
  abbrev pub with_counts : ClpaState → List ℤ × List ℤ → ClpaState
  with_counts cs (edges, inter) = record cs {
    edges2shard = add_halves edges inter;
    cross_shard_edge_num = half (sum edges);
    min_edges2shard = min_of (add_halves edges inter) max_int;
  }

  unfoldable pub compute_edges2shard : ClpaState → Option ClpaState
  unfolding count_all_edges
  compute_edges2shard cs = do
    counts ←
        count_all_edges cs.partition_map (edges_of cs.net_graph)
          (zeros cs.shard_num, zeros cs.shard_num)
    some (with_counts cs counts)

  abbrev pub with_recount : ClpaState → List ℤ × ℤ → ClpaState
  with_recount cs (edges, cross) = record cs {
    edges2shard = edges;
    cross_shard_edge_num = cross;
    min_edges2shard = min_of edges max_int;
  }

  unfoldable pub change_shard_recompute : Vertex → ℕ → ClpaState → Option ClpaState
  unfolding recount
  change_shard_recompute v old cs = do
    counts ←
        recount cs.partition_map (shard_of cs.partition_map v) old (neighbors cs.net_graph v)
          (cs.edges2shard, cs.cross_shard_edge_num)
    some (with_recount cs counts)

  -- `AddVertex`; `globals` is the number of shards that `Addr2Shard` divides by.
  unfoldable pub add_state_vertex : ℕ → Vertex → ClpaState → Option ClpaState
  unfolding add_vertex bump
  add_state_vertex globals v cs = do
    shard ← elim (lookup v cs.partition_map) [
      | none ↦ addr_to_shard globals v.addr
      | some val ↦ some val
    ]
    nums ← bump shard (pos 1) cs.vertexs_num_in_shard
    some (record cs {
      net_graph = add_vertex cs.net_graph v;
      partition_map = insert v shard cs.partition_map;
      vertexs_num_in_shard = nums;
    })

  abbrev pub ensure_state_vertex : ℕ → Vertex → ClpaState → Option ClpaState
  ensure_state_vertex globals v cs =
      if contains v cs.net_graph.vertex_set then some cs else add_state_vertex globals v cs

  unfoldable pub add_state_edge : ℕ → Vertex → Vertex → ClpaState → Option ClpaState
  add_state_edge globals u v cs = do
    cs' ← ensure_state_vertex globals u cs
    cs'' ← ensure_state_vertex globals v cs'
    some (record cs'' { net_graph = add_edge cs''.net_graph u v })

  abbrev pub copy_map : Dict Vertex ℕ → Dict Vertex ℕ → Dict Vertex ℕ
  copy_map [] m = m
  copy_map ((v, s) ∷ rest) m = copy_map rest (insert v s m)

  -- The cross-shard edges and the hash stay those of the destination.
  unfoldable pub copy_clpa : ClpaState → ClpaState → ClpaState
  copy_clpa dst src = record dst {
    net_graph = copy_graph dst.net_graph src.net_graph;
    partition_map = copy_map src.partition_map [];
    edges2shard =
        take src.shard_num src.edges2shard ++ zeros (src.shard_num - length src.edges2shard);
    vertexs_num_in_shard = src.vertexs_num_in_shard;
    weight_penalty = src.weight_penalty;
    min_edges2shard = src.min_edges2shard;
    max_iterations = src.max_iterations;
    shard_num = src.shard_num;
  }

  unfoldable pub init_clpa_state : Float → ℕ → ℕ → ClpaState → ClpaState
  init_clpa_state wp m_iter sn cs = record cs {
    weight_penalty = wp;
    max_iterations = m_iter;
    shard_num = sn;
    vertexs_num_in_shard = zeros sn;
    partition_map = [];
  }

  unfoldable pub erase_edges : ClpaState → ClpaState
  erase_edges cs = record cs { net_graph = record (cs.net_graph) { edge_set = some [] } }

  -- Putting vertices into the shards that a list names, with their counts.
  abbrev pub assign : List (Vertex × ℕ) → Dict Vertex ℕ × List ℤ → Option (Dict Vertex ℕ × List ℤ)
  assign [] counts = some counts
  assign ((v, shard) ∷ rest) (pm, nums) = elim (bump shard (pos 1) nums) [
    | none ↦ none
    | some nums' ↦ assign rest (insert v shard pm, nums')
  ]
