-- ===== src/Partition/Propagation.antt =====
-- partition/partition_CLPA.go, CLPA_Partition: label propagation with a bound on the iterations and
-- on the moves of an account. `order` gives the order in which the `range` of each iteration goes
-- through the vertices.
use blockchain_sharding.Base.{
  ℕ, zero, suc, ◌+◌, Option, none, some, List, [], ◌∷◌, Bytes, Dict, lookup_or, insert, contains,
  nat_beq, leb, ltb_ℤ, if◌then◌else◌, ℤ, pos, negsuc, length, get_elem?, count, ◌>>=◌, bytes_eq,
  nat_eq,
}
use blockchain_sharding.Partition.Graph.{Vertex, vertex_eq, neighbors}
use blockchain_sharding.Partition.State.{
  Floats, ClpaState, bump, shard_of, compute_edges2shard, change_shard_recompute,
}

-- The number of moves of an account after which it stays.
abbrev pub update_limit : ℕ
update_limit = 50

module _ (fl : Floats) where
  open fl use {Float, of_int, div, mul, sub, less}

  unfoldable pub get_shard_score : ClpaState fl → Vertex → ℕ → Option Float
  get_shard_score cs v u_shard = do
    edges ← get_elem? cs.edges2shard u_shard
    let around = neighbors cs.net_graph v
    let to_shard = count (λ u. nat_beq (shard_of cs.partition_map u) u_shard) around
    some (
        mul (div (of_int (pos to_shard)) (of_int (pos (length around)))) (
          sub (of_int (pos 1))
            (div (mul cs.weight_penalty (of_int edges)) (of_int cs.min_edges2shard))))

  -- The loop over the neighbours: the scores so far, and the best of them with its shard.
  unfoldable pub best_shard :
      ClpaState fl → Vertex → List Vertex → Dict ℕ Float × Float × ℕ → Option ℕ
  best_shard cs v [] (scores, max_score, max_score_shard) = some max_score_shard
  best_shard cs v (u ∷ us) (scores, max_score, max_score_shard) =
      let u_shard = shard_of cs.partition_map u in
      let step : Option (Dict ℕ Float × Float × ℕ) =
        if contains u_shard scores
        then some (scores, max_score, max_score_shard)
        else elim (get_shard_score cs v u_shard) [
          | none ↦ none
          | some score ↦
              if less max_score score
              then some (insert u_shard score scores, score, u_shard)
              else some (insert u_shard score scores, max_score, max_score_shard)
        ] in
      elim step [ none ↦ none | some best ↦ best_shard cs v us best ]

  -- The state, `res`, and `updateTreshold`.
  pub record Progress : Type 0 where
    pub cs : ClpaState fl
    pub res : Dict Bytes ℕ
    pub update_treshold : Dict Bytes ℕ

  unfoldable pub move_vertex : Vertex → ℕ → ℕ → Progress → Option Progress
  unfolding bump
  move_vertex v old new p = do
    down ← bump old (negsuc 0) p.cs.vertexs_num_in_shard
    up ← bump new (pos 1) down
    cs ← change_shard_recompute fl v old (record (p.cs) {
      partition_map = insert v new p.cs.partition_map;
      vertexs_num_in_shard = up;
    })
    some (record {
      cs = cs;
      res = insert v.addr new p.res;
      update_treshold = insert v.addr (lookup_or v.addr 0 p.update_treshold + 1) p.update_treshold;
    })

  unfoldable pub visit : Vertex → Progress → Option Progress
  unfolding best_shard move_vertex
  visit v p = if leb update_limit (lookup_or v.addr 0 p.update_treshold) then some p else (do
    let now = shard_of p.cs.partition_map v
    best ← best_shard p.cs v (neighbors p.cs.net_graph v) ([], of_int (negsuc 9998), now)
    if nat_beq now best then some p else (do
      held ← get_elem? p.cs.vertexs_num_in_shard now
      if ltb_ℤ (pos 1) held then move_vertex v now best p else some p))

  unfoldable pub visit_all : List Vertex → Progress → Option Progress
  unfolding visit
  visit_all [] p = some p
  visit_all (v ∷ vs) p = elim (visit v p) [ none ↦ none | some p' ↦ visit_all vs p' ]

  -- `left` iterations from the iteration `iter` on.
  unfoldable pub iterate : (ℕ → List Vertex) → ℕ → ℕ → Progress → Option Progress
  unfolding visit_all
  iterate order iter zero p = some p
  iterate order iter (suc left) p = elim (visit_all (order iter) p) [
    | none ↦ none
    | some p' ↦ iterate order (suc iter) left p'
  ]

  unfoldable pub clpa_partition :
      (ℕ → List Vertex) → ClpaState fl → Option (ClpaState fl × Dict Bytes ℕ × ℤ)
  unfolding iterate
  clpa_partition order cs = do
    counted ← compute_edges2shard fl cs
    p ←
        iterate order 0 counted.max_iterations
          (record { cs = counted; res = []; update_treshold = [] })
    done ← compute_edges2shard fl p.cs
    some (done, p.res, done.cross_shard_edge_num)
