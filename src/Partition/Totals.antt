-- ===== src/Partition/Totals.antt =====
-- The counts of the label propagation are in range as long as every account has a shard
-- (partition/partition_CLPA.go, ComputeEdges2Shard and changeShardRecompute).
use blockchain_sharding.Base.{
  ℕ, zero, suc, ◌<◌, some, List, [], ◌∷◌, Dict, ◌≡◌, refl, ap, ◌∙◌, arith, Bool-cases, inl, inr,
  length, get_elem?, ℤ, pos, negsuc, ◌+ℤ◌, nat_beq,
}
use blockchain_sharding.Partition.Graph.{Vertex, vertex_eq, neighbors, edges_of}
use blockchain_sharding.Partition.State.{
  Floats, ClpaState, bump, zeros, shard_of, add_halves, count_edges, count_all_edges, recount,
  with_counts, with_recount, compute_edges2shard, change_shard_recompute,
}

pub bump-total :
    (i : ℕ) (d : ℤ) (xs : List ℤ)
    → i < length xs
    → (ys : List ℤ) × (bump i d xs ≡ some ys) × (length ys ≡ length xs)
unfolding bump
bump-total i d [] h = absurd (omega arith)
bump-total zero d (x ∷ xs) h = ((x +ℤ d) ∷ xs, refl, refl)
bump-total (suc i) d (x ∷ xs) h =
    let (ys, run, same) = bump-total i d xs (omega arith) in (x ∷ ys, rw run refl, ap suc same)

pub get_elem?-total {ℓ} :
    {A : Type ℓ} (i : ℕ) (xs : List A) → i < length xs → (x : A) × (get_elem? xs i ≡ some x)
get_elem?-total i [] h = absurd (omega arith)
get_elem?-total zero (x ∷ xs) h = (x, refl)
get_elem?-total (suc i) (x ∷ xs) h = get_elem?-total i xs (omega arith)

length-zeros : (n : ℕ) → length (zeros n) ≡ n
length-zeros zero = refl
length-zeros (suc n) = ap suc (length-zeros n)

length-add_halves : (xs ys : List ℤ) → length (add_halves xs ys) ≡ length xs
length-add_halves [] ys = refl
length-add_halves (x ∷ xs) [] = refl
length-add_halves (x ∷ xs) (y ∷ ys) = ap suc (length-add_halves xs ys)

-- Every account is in a shard below `sn`.
abbrev pub HasShards : Dict Vertex ℕ → ℕ → Type 0
HasShards pm sn = (v : Vertex) → shard_of pm v < sn

abbrev SameLengths : ℕ → List ℤ × List ℤ → Type 0
SameLengths sn counts = (length counts.0 ≡ sn) × (length counts.1 ≡ sn)

count_edges-total :
    (pm : Dict Vertex ℕ) (sn v_shard : ℕ) (us : List Vertex) (counts : List ℤ × List ℤ)
    → HasShards pm sn
    → SameLengths sn counts
    → (counts' : List ℤ × List ℤ) × (count_edges pm v_shard us counts ≡ some counts')
      × SameLengths sn counts'
unfolding count_edges
count_edges-total pm sn v_shard [] counts h len = (counts, refl, len)
count_edges-total pm sn v_shard (u ∷ us) (edges, inter) h (le, li) =
    elim (Bool-cases (nat_beq v_shard (shard_of pm u))) [
      | inl e ↦
          let (inter', run, len) = bump-total (shard_of pm u) (pos 1) inter (omega (arith, h u)) in
          let (counts', rest, lens) =
            count_edges-total pm sn v_shard us (edges, inter') h (le, len ∙ li) in
          (counts', rw (e, count_edges) (rw run rest), lens)
      | inr e ↦
          let (edges', run, len) = bump-total (shard_of pm u) (pos 1) edges (omega (arith, h u)) in
          let (counts', rest, lens) =
            count_edges-total pm sn v_shard us (edges', inter) h (len ∙ le, li) in
          (counts', rw (e, count_edges) (rw run rest), lens)
    ]

count_all_edges-total :
    (pm : Dict Vertex ℕ) (sn : ℕ) (edges : Dict Vertex (List Vertex)) (counts : List ℤ × List ℤ)
    → HasShards pm sn
    → SameLengths sn counts
    → (counts' : List ℤ × List ℤ) × (count_all_edges pm edges counts ≡ some counts')
      × SameLengths sn counts'
unfolding count_all_edges
count_all_edges-total pm sn [] counts h len = (counts, refl, len)
count_all_edges-total pm sn ((v, us) ∷ rest) counts h len =
    let (counts', run, len') = count_edges-total pm sn (shard_of pm v) us counts h len in
    let (counts'', run', len'') = count_all_edges-total pm sn rest counts' h len' in
    (counts'', rw (run, count_all_edges) run', len'')

recount-total :
    (pm : Dict Vertex ℕ) (sn new old : ℕ) (us : List Vertex) (edges : List ℤ) (cross : ℤ)
    → new < sn
    → old < sn
    → length edges ≡ sn
    → (counts' : List ℤ × ℤ) × (recount pm new old us (edges, cross) ≡ some counts')
      × (length counts'.0 ≡ sn)
unfolding recount
recount-total pm sn new old [] edges cross hn ho len = ((edges, cross), refl, len)
recount-total pm sn new old (u ∷ us) edges cross hn ho len =
    let (up, run_up, len_up) = bump-total new (pos 1) edges (omega arith) in
    let (down, run_down, len_down) = bump-total old (negsuc 0) edges (omega arith) in
    let (both, run_both, len_both) = bump-total old (negsuc 0) up (omega arith) in
    elim (Bool-cases (nat_beq (shard_of pm u) new)) [
      | inl e ↦
          let (counts', rest, lens) =
            recount-total pm sn new old us down (cross +ℤ negsuc 0) hn ho (len_down ∙ len) in
          (counts', rw (e, recount) (rw run_down rest), lens)
      | inr e ↦ elim (Bool-cases (nat_beq (shard_of pm u) old)) [
        | inl e' ↦
            let (counts', rest, lens) =
              recount-total pm sn new old us up (cross +ℤ pos 1) hn ho (len_up ∙ len) in
            (counts', rw (e, recount) (rw e' (rw run_up rest)), lens)
        | inr e' ↦
            let (counts', rest, lens) =
              recount-total pm sn new old us both cross hn ho (len_both ∙ len_up ∙ len) in
            (counts', rw (e, recount) (rw e' (rw run_up (rw run_both rest))), lens)
      ]
    ]

module _ (fl : Floats) where
  -- A state that differs in the counts of the edges only.
  abbrev pub IsRecounted : ClpaState fl → ClpaState fl → Type 0
  IsRecounted cs cs' =
      (cs'.net_graph ≡ cs.net_graph)
      × (cs'.partition_map ≡ cs.partition_map)
      × (cs'.vertexs_num_in_shard ≡ cs.vertexs_num_in_shard)
      × (cs'.shard_num ≡ cs.shard_num)
      × (length cs'.edges2shard ≡ cs.shard_num)

  pub compute_edges2shard-total :
      (cs : ClpaState fl)
      → HasShards cs.partition_map cs.shard_num
      → (cs' : ClpaState fl) × (compute_edges2shard fl cs ≡ some cs') × IsRecounted cs cs'
  unfolding compute_edges2shard
  compute_edges2shard-total cs h =
      let len = length-zeros cs.shard_num in
      let (counts, run, lens) =
        count_all_edges-total cs.partition_map cs.shard_num (edges_of cs.net_graph)
          (zeros cs.shard_num, zeros cs.shard_num) h (len, len) in
      (
        with_counts fl cs counts,
        rw run refl,
        (refl, refl, refl, refl, length-add_halves counts.0 counts.1 ∙ lens.0),
      )

  pub change_shard_recompute-total :
      (v : Vertex) (old : ℕ) (cs : ClpaState fl)
      → HasShards cs.partition_map cs.shard_num
      → old < cs.shard_num
      → length cs.edges2shard ≡ cs.shard_num
      → (cs' : ClpaState fl) × (change_shard_recompute fl v old cs ≡ some cs') × IsRecounted cs cs'
  unfolding change_shard_recompute
  change_shard_recompute-total v old cs h ho len =
      let (counts, run, lens) =
        recount-total cs.partition_map cs.shard_num (shard_of cs.partition_map v) old
          (neighbors cs.net_graph v) cs.edges2shard cs.cross_shard_edge_num (h v) ho len in
      (with_recount fl cs counts, rw run refl, (refl, refl, refl, refl, lens))
