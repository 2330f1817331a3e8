-- ===== src/Partition/Moves.antt =====
-- One move of an account by the label propagation (partition/partition_CLPA.go, CLPA_Partition).
use blockchain_sharding.Base.{
  ℕ, zero, suc, ◌+◌, ◌<◌, true, not, ◌||◌, Option, none, some, List, [], ◌∷◌, Bytes, Dict,
  lookup_or, insert, contains, if◌then◌else◌, ◌≡◌, refl, sym, ap, ◌∙◌, arith, Bool-cases, inl, inr,
  length, get_elem?, ℤ, pos, negsuc, ◌+ℤ◌, ltb_ℤ, lookup_or-insert, +ℤ_parts, bytes_eq, nat_eq,
  ◌==◌,
}
use blockchain_sharding.Partition.Graph.{Vertex, vertex_eq}
use blockchain_sharding.Partition.State.{Floats, ClpaState, bump, shard_of}
use blockchain_sharding.Partition.Propagation.{get_shard_score, best_shard, Progress, move_vertex}
use blockchain_sharding.Partition.Totals.{get_elem?-total, HasShards, change_shard_recompute-total}

-- The shard of an account: that of the changes, if they name it, and otherwise the old one.
abbrev pub changed_to : Dict Bytes ℕ → Dict Vertex ℕ → Vertex → ℕ
changed_to res pm v = lookup_or v.addr (shard_of pm v) res

-- No count of a shard's accounts that was positive has fallen to zero.
abbrev pub KeepsShards : List ℤ → List ℤ → Type 0
KeepsShards [] ys = Unit {0}
KeepsShards (x ∷ xs) [] = ⊥
KeepsShards (x ∷ xs) (y ∷ ys) =
    ((not (ltb_ℤ (pos 0) x) || ltb_ℤ (pos 0) y) ≡ true) × KeepsShards xs ys

pub KeepsShards-refl : (xs : List ℤ) → KeepsShards xs xs
KeepsShards-refl [] = tt
KeepsShards-refl (x ∷ xs) = (ground arith, KeepsShards-refl xs)

KeepsShards-trans : (xs ys zs : List ℤ) → KeepsShards xs ys → KeepsShards ys zs → KeepsShards xs zs
KeepsShards-trans [] ys zs a b = tt
KeepsShards-trans (x ∷ xs) [] zs a b = elim a [ ]
KeepsShards-trans (x ∷ xs) (y ∷ ys) [] a b = elim b [ ]
KeepsShards-trans (x ∷ xs) (y ∷ ys) (z ∷ zs) (a, r) (b, s) =
    (ground arith, KeepsShards-trans xs ys zs r s)

bump-KeepsShards :
    (i : ℕ) (d held : ℤ) (xs : List ℤ)
    → get_elem? xs i ≡ some held
    → (not (ltb_ℤ (pos 0) held) || ltb_ℤ (pos 0) (held +ℤ d)) ≡ true
    → (ys : List ℤ) × (bump i d xs ≡ some ys) × KeepsShards xs ys × (length ys ≡ length xs)
unfolding bump
bump-KeepsShards i d held [] e h = absurd (ground (arith, e))
bump-KeepsShards zero d held (x ∷ xs) e h =
    let same : x ≡ held = ground (arith, e) in
    ((x +ℤ d) ∷ xs, refl, (rw same h, KeepsShards-refl xs), refl)
bump-KeepsShards (suc i) d held (x ∷ xs) e h =
    let (ys, run, keeps, len) = bump-KeepsShards i d held xs e h in
    (x ∷ ys, rw run refl, (ground arith, keeps), ap suc len)

one_more : (held : ℤ) → (not (ltb_ℤ (pos 0) held) || ltb_ℤ (pos 0) (held +ℤ pos 1)) ≡ true
one_more held = ground (arith, +ℤ_parts held (pos 1))

one_less :
    (held : ℤ)
    → ltb_ℤ (pos 1) held ≡ true
    → (not (ltb_ℤ (pos 0) held) || ltb_ℤ (pos 0) (held +ℤ negsuc 0)) ≡ true
one_less held h = ground (arith, +ℤ_parts held (negsuc 0))

module _ (fl : Floats) where
  get_shard_score-total :
      (cs : ClpaState fl) (v : Vertex) (s : ℕ) (edges : ℤ)
      → get_elem? cs.edges2shard s ≡ some edges
      → (score : fl.Float) × (get_shard_score fl cs v s ≡ some score)
  unfolding get_shard_score
  get_shard_score-total cs v s edges found = go (get_shard_score fl cs v s) refl
    where
      go :
          (r : Option fl.Float)
          → get_shard_score fl cs v s ≡ r
          → (score : fl.Float) × (get_shard_score fl cs v s ≡ some score)
      go none e = absurd (ground (arith, e, found))
      go (some score) e = (score, e)

  pub best_shard-total :
      (cs : ClpaState fl) (v : Vertex) (us : List Vertex) (scores : Dict ℕ fl.Float)
      (max_score : fl.Float) (max_shard : ℕ)
      → HasShards cs.partition_map cs.shard_num
      → length cs.edges2shard ≡ cs.shard_num
      → max_shard < cs.shard_num
      → (best : ℕ) × (best_shard fl cs v us (scores, max_score, max_shard) ≡ some best)
        × (best < cs.shard_num)
  unfolding best_shard
  best_shard-total cs v [] scores max_score max_shard h len lt = (max_shard, refl, lt)
  best_shard-total cs v (u ∷ us) scores max_score max_shard h len lt =
      let s = shard_of cs.partition_map u in
      elim (Bool-cases (contains s scores)) [
        | inl e ↦
            let (best, run, small) = best_shard-total cs v us scores max_score max_shard h len lt in
            (best, rw (e, best_shard) run, small)
        | inr e ↦
            let (edges, found) = get_elem?-total s cs.edges2shard (omega (arith, h u)) in
            let (score, scored) = get_shard_score-total cs v s edges found in
            elim (Bool-cases (fl.less max_score score)) [
              | inl better ↦
                  let (best, run, small) =
                    best_shard-total cs v us (insert s score scores) score s h len (h u) in
                  (best, rw (e, best_shard) (rw scored (rw better run)), small)
              | inr worse ↦
                  let (best, run, small) =
                    best_shard-total cs v us (insert s score scores) max_score max_shard h len lt in
                  (best, rw (e, best_shard) (rw scored (rw worse run)), small)
            ]
      ]

  -- What holds between the state before the iterations and one that they reach.
  abbrev pub IsReached : ClpaState fl → Progress fl → Type 0
  IsReached old p =
      (p.cs.shard_num ≡ old.shard_num)
      × (length p.cs.edges2shard ≡ old.shard_num)
      × (length p.cs.vertexs_num_in_shard ≡ old.shard_num)
      × HasShards p.cs.partition_map old.shard_num
      × KeepsShards old.vertexs_num_in_shard p.cs.vertexs_num_in_shard
      × ((v : Vertex) → shard_of p.cs.partition_map v ≡ changed_to p.res old.partition_map v)

  pub move_vertex-IsReached :
      (old : ClpaState fl) (p : Progress fl) (v : Vertex) (new : ℕ) (held : ℤ)
      → IsReached old p
      → new < old.shard_num
      → get_elem? p.cs.vertexs_num_in_shard (shard_of p.cs.partition_map v) ≡ some held
      → ltb_ℤ (pos 1) held ≡ true
      → (p' : Progress fl) × (move_vertex fl v (shard_of p.cs.partition_map v) new p ≡ some p')
        × IsReached old p'
  unfolding move_vertex
  move_vertex-IsReached old p v new held (sn, len, lens, shards, keeps, follows) small e h =
      let now = shard_of p.cs.partition_map v in
      let (down, run_down, keeps_down, len_down) =
        bump-KeepsShards now (negsuc 0) held p.cs.vertexs_num_in_shard e (one_less held h) in
      let (there, found) = get_elem?-total new down (omega (arith, len_down, lens)) in
      let (up, run_up, keeps_up, len_up) =
        bump-KeepsShards new (pos 1) there down found (one_more there) in
      let moved = record (p.cs) {
        partition_map = insert v new p.cs.partition_map;
        vertexs_num_in_shard = up;
      } in
      let lookup_moved : (w : Vertex)
          → shard_of moved.partition_map w
            ≡ (if v == w then new else shard_of p.cs.partition_map w) =
        λ w. lookup_or-insert v w 0 new p.cs.partition_map in
      let shards' : HasShards moved.partition_map old.shard_num =
        λ w. ground (arith, lookup_moved w, shards w) in
      let (cs', run, (same_graph, same_map, same_nums, same_sn, len')) =
        change_shard_recompute-total fl v now moved (λ w. omega (arith, shards' w, sn))
          (omega (arith, shards v, sn)) (len ∙ sym sn) in
      (
        record {
          cs = cs';
          res = insert v.addr new p.res;
          update_treshold =
              insert v.addr (lookup_or v.addr 0 p.update_treshold + 1) p.update_treshold;
        },
        rw (run_down, move_vertex) (rw run_up (rw run refl)),
        (
          same_sn ∙ sn,
          len' ∙ sn,
          ap length same_nums ∙ len_up ∙ len_down ∙ lens,
          λ w. rw same_map (shards' w),
          rw same_nums (
              KeepsShards-trans old.vertexs_num_in_shard p.cs.vertexs_num_in_shard up keeps
                (KeepsShards-trans p.cs.vertexs_num_in_shard down up keeps_down keeps_up)),
          λ w. rw same_map (
              ground (
                arith,
                lookup_moved w,
                follows w,
                lookup_or-insert v.addr w.addr (shard_of old.partition_map w) new p.res,
              )),
        ),
      )
