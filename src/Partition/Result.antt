-- ===== src/Partition/Result.antt =====
-- What the label propagation returns (partition/partition_CLPA.go, CLPA_Partition).
use blockchain_sharding.Base.{
  ℕ, zero, suc, some, List, [], ◌∷◌, Bytes, Dict, lookup_or, ◌≡◌, refl, sym, ap, ◌∙◌, arith,
  Bool-cases, inl, inr, length, ℤ, pos, negsuc, ltb_ℤ, nat_beq, leb, bytes_eq,
}
use blockchain_sharding.Partition.Graph.{Vertex, neighbors}
use blockchain_sharding.Partition.State.{Floats, ClpaState, shard_of}
use blockchain_sharding.Partition.Propagation.{
  update_limit, Progress, visit, visit_all, iterate, clpa_partition,
}
use blockchain_sharding.Partition.Totals.{get_elem?-total, HasShards, compute_edges2shard-total}
use blockchain_sharding.Partition.Moves.{
  changed_to, KeepsShards, KeepsShards-refl, IsReached, best_shard-total, move_vertex-IsReached,
}

module _ (fl : Floats) where
  visit-IsReached :
      (old : ClpaState fl) (v : Vertex) (p : Progress fl)
      → IsReached fl old p
      → (p' : Progress fl) × (visit fl v p ≡ some p') × IsReached fl old p'
  unfolding visit
  visit-IsReached old v p reached =
      let (sn, len, lens, shards, keeps, follows) = reached in
      let now = shard_of p.cs.partition_map v in
      let (best, found, small) =
        best_shard-total fl p.cs v (neighbors p.cs.net_graph v) [] (fl.of_int (negsuc 9998)) now
          (λ w. omega (arith, shards w, sn)) (len ∙ sym sn) (omega (arith, shards v, sn)) in
      let (held, in_range) =
        get_elem?-total now p.cs.vertexs_num_in_shard (omega (arith, shards v, lens)) in
      elim (Bool-cases (leb update_limit (lookup_or v.addr 0 p.update_treshold))) [
        | inl full ↦ (p, rw (full, visit) refl, reached)
        | inr free ↦ elim (Bool-cases (nat_beq now best)) [
          | inl stays ↦ (p, rw (free, visit) (rw found (rw stays refl)), reached)
          | inr moves ↦ elim (Bool-cases (ltb_ℤ (pos 1) held)) [
            | inl more ↦
                let (p', run, reached') =
                  move_vertex-IsReached fl old p v best held reached (omega (arith, small, sn))
                    in_range more in
                (p', rw (free, visit) (rw found (rw moves (rw in_range (rw more run)))), reached')
            | inr last ↦
                (p, rw (free, visit) (rw found (rw moves (rw in_range (rw last refl)))), reached)
          ]
        ]
      ]

  visit_all-IsReached :
      (old : ClpaState fl) (vs : List Vertex) (p : Progress fl)
      → IsReached fl old p
      → (p' : Progress fl) × (visit_all fl vs p ≡ some p') × IsReached fl old p'
  unfolding visit_all
  visit_all-IsReached old [] p reached = (p, refl, reached)
  visit_all-IsReached old (v ∷ vs) p reached =
      let (p', run, reached') = visit-IsReached old v p reached in
      let (p'', rest, reached'') = visit_all-IsReached old vs p' reached' in
      (p'', rw (run, visit_all) rest, reached'')

  iterate-IsReached :
      (old : ClpaState fl) (order : ℕ → List Vertex) (iter left : ℕ) (p : Progress fl)
      → IsReached fl old p
      → (p' : Progress fl) × (iterate fl order iter left p ≡ some p') × IsReached fl old p'
  unfolding iterate
  iterate-IsReached old order iter zero p reached = (p, refl, reached)
  iterate-IsReached old order iter (suc left) p reached =
      let (p', run, reached') = visit_all-IsReached old (order iter) p reached in
      let (p'', rest, reached'') = iterate-IsReached old order (suc iter) left p' reached' in
      (p'', rw (run, iterate) rest, reached'')

  -- Where there is a count for each shard, and every account is in a shard that exists, the
  -- propagation ends without a panic, whatever the weights and the order in which each iteration
  -- goes through the accounts. The map of changes that it returns is all that another node needs:
  -- over the old partition it gives the new one, for every account. A count of a shard's accounts,
  -- as VertexsNumInShard keeps it, that was positive is so after, and every account is in a shard
  -- that exists.
  pub clpa_partition-changed_to :
      (order : ℕ → List Vertex) (cs : ClpaState fl)
      → length cs.vertexs_num_in_shard ≡ cs.shard_num
      → HasShards cs.partition_map cs.shard_num
      → (cs' : ClpaState fl) × (res : Dict Bytes ℕ) × (cross : ℤ) × (clpa_partition fl order cs
          ≡ some (cs', res, cross))
        × ((v : Vertex) → shard_of cs'.partition_map v ≡ changed_to res cs.partition_map v)
        × KeepsShards cs.vertexs_num_in_shard cs'.vertexs_num_in_shard
        × HasShards cs'.partition_map cs.shard_num
  unfolding clpa_partition
  clpa_partition-changed_to order cs lens shards =
      let (counted, run, (graph1, map1, nums1, sn1, len1)) =
        compute_edges2shard-total fl cs shards in
      let start : Progress fl = record { cs = counted; res = []; update_treshold = [] } in
      let reached : IsReached fl cs start = (
        sn1,
        len1,
        ap length nums1 ∙ lens,
        λ v. rw map1 (shards v),
        rw nums1 (KeepsShards-refl cs.vertexs_num_in_shard),
        λ v. ap (λ m. shard_of m v) map1,
      ) in
      let (p, run2, (sn2, len2, lens2, shards2, keeps2, follows2)) =
        iterate-IsReached cs order 0 counted.max_iterations start reached in
      let (cs', run3, (graph3, map3, nums3, sn3, len3)) =
        compute_edges2shard-total fl p.cs (λ v. omega (arith, shards2 v, sn2)) in
      (
        cs',
        p.res,
        cs'.cross_shard_edge_num,
        rw (run, clpa_partition) (rw run2 (rw run3 refl)),
        λ v. ap (λ m. shard_of m v) map3 ∙ follows2 v,
        rw nums3 keeps2,
        λ v. rw map3 (shards2 v),
      )
