-- ===== src/Partition/Counted.antt =====
-- The accounts of a shard, counted in the partition map, along one move of the label propagation
-- (partition/partition_CLPA.go, CLPA_Partition).
use blockchain_sharding.Base.{
  ℕ, zero, suc, ◌+◌, ◌≤◌, true, Option, none, some, List, [], ◌∷◌, Dict, lookup, insert, contains,
  if◌then◌else◌, ◌≡◌, refl, subst, arith, Bool-cases, inl, inr, nat_beq, nat_beq_iff, get_elem?, ℤ,
  pos, negsuc, ◌+ℤ◌, ltb_ℤ, lookup-insert, +ℤ_parts, eq_of_parts, Option-cases, bytes_eq, nat_eq,
  count, ◌==◌,
}
use blockchain_sharding.Partition.Graph.{Vertex, vertex_eq, neighbors, edges_of}
use blockchain_sharding.Partition.State.{
  Floats, ClpaState, bump, shard_of, change_shard_recompute, compute_edges2shard, recount,
  count_all_edges, zeros,
}
use blockchain_sharding.Partition.Propagation.{Progress, move_vertex}

-- The number of accounts that the partition map puts into a shard.
abbrev pub accounts_in : ℕ → Dict Vertex ℕ → ℕ
accounts_in s pm = count (λ e. nat_beq e.1 s) pm

accounts_in-insert :
    (s : ℕ) (v : Vertex) (now new : ℕ) (pm : Dict Vertex ℕ)
    → lookup v pm ≡ some now
    → accounts_in s (insert v new pm) + (if nat_beq now s then 1 else 0)
      ≡ accounts_in s pm + (if nat_beq new s then 1 else 0)
accounts_in-insert s v now new [] e = absurd (ground (arith, e))
accounts_in-insert s v now new ((w, t) ∷ pm) e = elim (Bool-cases (w == v)) [
  | inl same ↦ ground (arith, e, same)
  | inr other ↦
      let rest = accounts_in-insert s v now new pm (ground (arith, e, other)) in
      ground (arith, other, rest)
]

bump-at :
    (i s : ℕ) (d : ℤ) (xs ys : List ℤ)
    → bump i d xs ≡ some ys
    → get_elem? ys s ≡ (
        if nat_beq i s
        then (elim (get_elem? xs s) [ none ↦ none | some x ↦ some (x +ℤ d) ])
        else get_elem? xs s)
unfolding bump
bump-at i s d [] ys e = absurd (ground (arith, e))
bump-at zero zero d (x ∷ xs) ys e = ground (arith, e)
bump-at zero (suc s) d (x ∷ xs) ys e = ground (arith, e)
bump-at (suc i) s d (x ∷ xs) ys e = go (bump i d xs) refl s (bump-at i)
  where
    go :
        (r : Option (List ℤ))
        → bump i d xs ≡ r
        → (s : ℕ)
        → ((s : ℕ) (d : ℤ) (xs ys : List ℤ)
            → bump i d xs ≡ some ys
            → get_elem? ys s ≡ (
                if nat_beq i s
                then (elim (get_elem? xs s) [ none ↦ none | some x ↦ some (x +ℤ d) ])
                else get_elem? xs s))
        → get_elem? ys s ≡ (
            if nat_beq (suc i) s
            then (elim (get_elem? (x ∷ xs) s) [ none ↦ none | some x ↦ some (x +ℤ d) ])
            else get_elem? (x ∷ xs) s)
    go none er s ih = absurd (ground (arith, e, er))
    go (some rest) er zero ih = ground (arith, e, er)
    go (some rest) er (suc s) ih = ground (
      arith,
      e,
      er,
      ih s d xs rest er,
      nat_beq_iff i s,
      nat_beq_iff (suc i) (suc s),
      Bool-cases (nat_beq i s),
    )

-- The counts are those of the partition map.
abbrev pub IsCounted : Dict Vertex ℕ → List ℤ → Type 0
IsCounted pm nums = (s : ℕ) (x : ℤ) → get_elem? nums s ≡ some x → x ≡ pos (accounts_in s pm)

move-IsCounted :
    (v : Vertex) (now new : ℕ) (pm : Dict Vertex ℕ) (nums down up : List ℤ)
    → lookup v pm ≡ some now
    → bump now (negsuc 0) nums ≡ some down
    → bump new (pos 1) down ≡ some up
    → IsCounted pm nums
    → IsCounted (insert v new pm) up
move-IsCounted v now new pm nums down up e less more h s x at = go (get_elem? nums s) refl
  where
    go : (o : Option ℤ) → get_elem? nums s ≡ o → x ≡ pos (accounts_in s (insert v new pm))
    go none eo = absurd (
        ground (
          arith,
          at,
          eo,
          bump-at new s (pos 1) down up more,
          bump-at now s (negsuc 0) nums down less,
        ))
    go (some y) eo =
        let y' = if nat_beq now s then y +ℤ negsuc 0 else y in
        let same : (if nat_beq new s then y' +ℤ pos 1 else y') ≡ x = ground (
          arith,
          at,
          eo,
          bump-at new s (pos 1) down up more,
          bump-at now s (negsuc 0) nums down less,
        ) in
        eq_of_parts x (pos (accounts_in s (insert v new pm))) (
          ground (
            arith,
            same,
            h s y eo,
            +ℤ_parts y (negsuc 0),
            +ℤ_parts y' (pos 1),
            accounts_in-insert s v now new pm e,
          ))

-- Every shard that had an account has one.
abbrev pub KeepsAccounts : Dict Vertex ℕ → Dict Vertex ℕ → Type 0
KeepsAccounts old pm = (s : ℕ) → 1 ≤ accounts_in s old → 1 ≤ accounts_in s pm

module _ (fl : Floats) where
  change_shard_recompute-same :
      (v : Vertex) (old : ℕ) (cs cs' : ClpaState fl)
      → change_shard_recompute fl v old cs ≡ some cs'
      → (cs'.partition_map ≡ cs.partition_map)
        × (cs'.vertexs_num_in_shard ≡ cs.vertexs_num_in_shard)
  unfolding change_shard_recompute
  change_shard_recompute-same v old cs cs' e = ground (
    arith,
    e,
    Option-cases (
        recount cs.partition_map (shard_of cs.partition_map v) old (neighbors cs.net_graph v)
          (cs.edges2shard, cs.cross_shard_edge_num)),
  )

  pub compute_edges2shard-same :
      (cs cs' : ClpaState fl)
      → compute_edges2shard fl cs ≡ some cs'
      → (cs'.partition_map ≡ cs.partition_map)
        × (cs'.vertexs_num_in_shard ≡ cs.vertexs_num_in_shard)
  unfolding compute_edges2shard
  compute_edges2shard-same cs cs' e = ground (
    arith,
    e,
    Option-cases (
        count_all_edges cs.partition_map (edges_of cs.net_graph)
          (zeros cs.shard_num, zeros cs.shard_num)),
  )

  abbrev pub IsFair : Dict Vertex ℕ → ClpaState fl → Type 0
  IsFair old cs =
      IsCounted cs.partition_map cs.vertexs_num_in_shard
      × ((v : Vertex) → contains v old ≡ true → contains v cs.partition_map ≡ true)
      × KeepsAccounts old cs.partition_map

  pub move_vertex-IsFair :
      (old : Dict Vertex ℕ) (v : Vertex) (now new : ℕ) (held : ℤ) (p p' : Progress fl)
      → lookup v p.cs.partition_map ≡ some now
      → get_elem? p.cs.vertexs_num_in_shard now ≡ some held
      → ltb_ℤ (pos 1) held ≡ true
      → move_vertex fl v now new p ≡ some p'
      → IsFair old p.cs
      → IsFair old p'.cs
  unfolding move_vertex
  move_vertex-IsFair old v now new held p p' here at more e (counted, known, keeps) =
      lower (bump now (negsuc 0) p.cs.vertexs_num_in_shard) refl
    where
      lower :
          (o : Option (List ℤ))
          → bump now (negsuc 0) p.cs.vertexs_num_in_shard ≡ o
          → IsFair old p'.cs
      lower none eo = absurd (ground (arith, e, eo))
      lower (some down) eo = raise (bump new (pos 1) down) refl
        where
          raise : (o : Option (List ℤ)) → bump new (pos 1) down ≡ o → IsFair old p'.cs
          raise none er = absurd (ground (arith, e, eo, er))
          raise (some up) er = recomputed (change_shard_recompute fl v now moved) refl
            where
              moved : ClpaState fl
              moved = record (p.cs) {
                partition_map = insert v new p.cs.partition_map;
                vertexs_num_in_shard = up;
              }

              fair : IsFair old moved
              fair = (
                move-IsCounted v now new p.cs.partition_map p.cs.vertexs_num_in_shard down up here
                    eo er counted,
                λ w k. ground (
                  arith,
                  known w k,
                  lookup-insert v w new p.cs.partition_map,
                  Bool-cases (v == w),
                ),
                λ s some_there. ground (
                  arith,
                  keeps s some_there,
                  accounts_in-insert s v now new p.cs.partition_map here,
                  nat_beq_iff now s,
                  more,
                  counted now held at,
                ),
              )

              recomputed :
                  (o : Option (ClpaState fl))
                  → change_shard_recompute fl v now moved ≡ o
                  → IsFair old p'.cs
              recomputed none ec = absurd (ground (arith, e, eo, er, ec))
              recomputed (some cs) ec =
                  let (same_map, same_nums) = change_shard_recompute-same v now moved cs ec in
                  let done : cs ≡ p'.cs = ground (arith, e, eo, er, ec) in
                  subst (IsFair old) done (rw (same_map, same_nums) fair)
