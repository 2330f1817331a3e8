-- ===== src/Partition/Occupied.antt =====
-- The accounts of a shard, counted in the partition map, along the label propagation
-- (partition/partition_CLPA.go, CLPA_Partition).
use blockchain_sharding.Base.{
  ℕ, zero, suc, true, false, Option, none, some, List, [], ◌∷◌, Bytes, Dict, lookup, lookup_or,
  contains, ◌≡◌, refl, subst, arith, Bool-cases, inl, inr, nat_beq, length, get_elem?, ℤ, pos,
  negsuc, ltb_ℤ, bytes_eq, nat_eq, All, leb,
}
use blockchain_sharding.Partition.Graph.{Vertex, vertex_eq, neighbors}
use blockchain_sharding.Partition.State.{Floats, ClpaState, compute_edges2shard}
use blockchain_sharding.Partition.Propagation.{
  update_limit, best_shard, Progress, move_vertex, visit, visit_all, iterate, clpa_partition,
}
use blockchain_sharding.Partition.Totals.{HasShards}
use blockchain_sharding.Partition.Result.{clpa_partition-changed_to}
use blockchain_sharding.Partition.Counted.{
  IsCounted, KeepsAccounts, compute_edges2shard-same, IsFair, move_vertex-IsFair,
}

module _ (fl : Floats) where
  visit-IsFair :
      (old : Dict Vertex ℕ) (v : Vertex) (p p' : Progress fl)
      → contains v old ≡ true
      → visit fl v p ≡ some p'
      → IsFair fl old p.cs
      → IsFair fl old p'.cs
  unfolding visit
  visit-IsFair old v p p' k e fair = there (lookup v p.cs.partition_map) refl
    where
      known : contains v p.cs.partition_map ≡ true
      known = fair.1 v k

      there : (o : Option ℕ) → lookup v p.cs.partition_map ≡ o → IsFair fl old p'.cs
      there none eo = absurd (ground (arith, known, eo))
      there (some now) eo =
          elim (Bool-cases (leb update_limit (lookup_or v.addr 0 p.update_treshold))) [
            | inl full ↦
                let same : p ≡ p' = ground (arith, e, full) in
                subst (λ (q : Progress fl). IsFair fl old q.cs) same fair
            | inr free ↦
                better free
                  (best_shard fl p.cs v (neighbors p.cs.net_graph v)
                    ([], fl.of_int (negsuc 9998), now))
                  refl
          ]
        where
          better :
              leb update_limit (lookup_or v.addr 0 p.update_treshold) ≡ false
              → (o : Option ℕ)
              → best_shard fl p.cs v (neighbors p.cs.net_graph v) ([], fl.of_int (negsuc 9998), now)
                ≡ o
              → IsFair fl old p'.cs
          better free none eb = absurd (ground (arith, e, free, eb, eo))
          better free (some best) eb = elim (Bool-cases (nat_beq now best)) [
            | inl stays ↦
                let same : p ≡ p' = ground (arith, e, free, eb, eo, stays) in
                subst (λ (q : Progress fl). IsFair fl old q.cs) same fair
            | inr moves ↦ held_there free eb moves (get_elem? p.cs.vertexs_num_in_shard now) refl
          ]
            where
              held_there :
                  leb update_limit (lookup_or v.addr 0 p.update_treshold) ≡ false
                  → best_shard fl p.cs v
                      (neighbors p.cs.net_graph v)
                      ([], fl.of_int (negsuc 9998), now)
                    ≡ some best
                  → nat_beq now best ≡ false
                  → (o : Option ℤ) → get_elem? p.cs.vertexs_num_in_shard now ≡ o
                  → IsFair fl old p'.cs
              held_there free eb moves none eh = absurd (ground (arith, e, free, eb, eo, moves, eh))
              held_there free eb moves (some held) eh = elim (Bool-cases (ltb_ℤ (pos 1) held)) [
                | inl more ↦
                    let run : move_vertex fl v now best p ≡ some p' =
                      ground (arith, e, free, eb, eo, moves, eh, more) in
                    move_vertex-IsFair fl old v now best held p p' eo eh more run fair
                | inr last ↦
                    let same : p ≡ p' = ground (arith, e, free, eb, eo, moves, eh, last) in
                    subst (λ (q : Progress fl). IsFair fl old q.cs) same fair
              ]

  visit_all-IsFair :
      (old : Dict Vertex ℕ) (vs : List Vertex) (p p' : Progress fl)
      → All (λ v. contains v old ≡ true) vs
      → visit_all fl vs p ≡ some p'
      → IsFair fl old p.cs
      → IsFair fl old p'.cs
  unfolding visit_all
  visit_all-IsFair old [] p p' k e fair =
      let same : p ≡ p' = ground (arith, e) in
      subst (λ (q : Progress fl). IsFair fl old q.cs) same fair
  visit_all-IsFair old (v ∷ vs) p p' (k, rest) e fair =
      go (visit fl v p) refl (visit_all-IsFair old vs)
    where
      go :
          (o : Option (Progress fl))
          → visit fl v p ≡ o
          → ((q q' : Progress fl)
              → All (λ v. contains v old ≡ true) vs
              → visit_all fl vs q ≡ some q'
              → IsFair fl old q.cs
              → IsFair fl old q'.cs)
          → IsFair fl old p'.cs
      go none eo ih = absurd (ground (arith, e, eo))
      go (some q) eo ih =
          let run : visit_all fl vs q ≡ some p' = ground (arith, e, eo) in
          ih q p' rest run (visit-IsFair old v p q k eo fair)

  iterate-IsFair :
      (old : Dict Vertex ℕ) (order : ℕ → List Vertex) (iter left : ℕ) (p p' : Progress fl)
      → ((i : ℕ) → All (λ v. contains v old ≡ true) (order i))
      → iterate fl order iter left p ≡ some p'
      → IsFair fl old p.cs
      → IsFair fl old p'.cs
  unfolding iterate
  iterate-IsFair old order iter zero p p' k e fair =
      let same : p ≡ p' = ground (arith, e) in
      subst (λ (q : Progress fl). IsFair fl old q.cs) same fair
  iterate-IsFair old order iter (suc left) p p' k e fair =
      go (visit_all fl (order iter) p) refl (iterate-IsFair old order (suc iter) left)
    where
      go :
          (o : Option (Progress fl))
          → visit_all fl (order iter) p ≡ o
          → ((q q' : Progress fl)
              → ((i : ℕ) → All (λ v. contains v old ≡ true) (order i))
              → iterate fl order (suc iter) left q ≡ some q'
              → IsFair fl old q.cs
              → IsFair fl old q'.cs)
          → IsFair fl old p'.cs
      go none eo ih = absurd (ground (arith, e, eo))
      go (some q) eo ih =
          let run : iterate fl order (suc iter) left q ≡ some p' = ground (arith, e, eo) in
          ih q p' k run (visit_all-IsFair old (order iter) p q (k iter) eo fair)

  partition-IsFair :
      (order : ℕ → List Vertex) (cs cs' : ClpaState fl) (res : Dict Bytes ℕ) (cross : ℤ)
      → ((i : ℕ) → All (λ v. contains v cs.partition_map ≡ true) (order i))
      → IsCounted cs.partition_map cs.vertexs_num_in_shard
      → clpa_partition fl order cs ≡ some (cs', res, cross)
      → IsFair fl cs.partition_map cs'
  unfolding clpa_partition
  partition-IsFair order cs cs' res cross k counted e = start (compute_edges2shard fl cs) refl
    where
      start :
          (o : Option (ClpaState fl))
          → compute_edges2shard fl cs ≡ o
          → IsFair fl cs.partition_map cs'
      start none e0 = absurd (ground (arith, e, e0))
      start (some c) e0 = run (iterate fl order 0 c.max_iterations first) refl
        where
          first : Progress fl
          first = record { cs = c; res = []; update_treshold = [] }

          fair : IsFair fl cs.partition_map c
          fair =
              let (same_map, same_nums) = compute_edges2shard-same fl cs c e0 in
              rw (same_map, same_nums) (counted, λ v h. h, λ s h. h)

          run :
              (o : Option (Progress fl))
              → iterate fl order 0 c.max_iterations first ≡ o
              → IsFair fl cs.partition_map cs'
          run none e1 = absurd (ground (arith, e, e0, e1))
          run (some p) e1 = end (compute_edges2shard fl p.cs) refl
            where
              end :
                  (o : Option (ClpaState fl))
                  → compute_edges2shard fl p.cs ≡ o
                  → IsFair fl cs.partition_map cs'
              end none e2 = absurd (ground (arith, e, e0, e1, e2))
              end (some d) e2 =
                  let same : d ≡ cs' = ground (arith, e, e0, e1, e2) in
                  let (same_map, same_nums) = compute_edges2shard-same fl p.cs d e2 in
                  subst (IsFair fl cs.partition_map) same (
                    rw (same_map, same_nums)
                      (iterate-IsFair cs.partition_map order 0 c.max_iterations first p k e1 fair))

  -- Let there be a count for each shard, the right one by the partition map, let every account be in
  -- a shard that exists, and let the iterations go through accounts of the partition map only. Then
  -- the propagation ends without a panic, the counts are right by the new partition map, and no
  -- shard that had an account is left without one.
  pub clpa_partition-KeepsAccounts :
      (order : ℕ → List Vertex) (cs : ClpaState fl)
      → length cs.vertexs_num_in_shard ≡ cs.shard_num
      → HasShards cs.partition_map cs.shard_num
      → IsCounted cs.partition_map cs.vertexs_num_in_shard
      → ((i : ℕ) → All (λ v. contains v cs.partition_map ≡ true) (order i))
      → (cs' : ClpaState fl) × (res : Dict Bytes ℕ) × (cross : ℤ) × (clpa_partition fl order cs
          ≡ some (cs', res, cross))
        × IsCounted cs'.partition_map cs'.vertexs_num_in_shard
        × KeepsAccounts cs.partition_map cs'.partition_map
  clpa_partition-KeepsAccounts order cs lens shards counted known =
      let (cs', res, cross, run, _, _, _) = clpa_partition-changed_to fl order cs lens shards in
      let (counts, _, keeps) = partition-IsFair order cs cs' res cross known counted run in
      (cs', res, cross, run, counts, keeps)
