-- ===== src/Partition/Setup.antt =====
-- partition/partition_CLPA.go: the first partitions, and the move of all accounts with a prefix.
use blockchain_sharding.Base.{
  ℕ, suc, ◌-◌, ◌%◌, Bool, not, ◌&&◌, Option, none, some, List, [], ◌∷◌, Bytes, Dict, insert,
  nat_beq, bytes_beq, leb, ltb, if◌then◌else◌, ℤ, pos, negsuc, sub_ℕ, length, take, drop, ◌>>=◌,
  ◌>>◌, guard,
}
use blockchain_sharding.Utils.{parse_hex}
use blockchain_sharding.Partition.Graph.{Vertex, vertex_eq, vertices}
use blockchain_sharding.Partition.State.{
  Floats, ClpaState, bump, zeros, shard_of, assign, compute_edges2shard,
}

-- `ParseInt(_, 16, 64)` on eight characters: a sign may come first.
unfoldable pub parse_int : Bytes → Option ℤ
parse_int [] = none
parse_int (c ∷ cs) =
    if nat_beq c b'-'
    then (parse_hex cs >>= λ n. some (sub_ℕ 0 n))
    else if nat_beq c b'+'
    then (parse_hex cs >>= λ n. some (pos n))
    else (parse_hex (c ∷ cs) >>= λ n. some (pos n))

-- `int(num) % cs.ShardNum` as an index.
abbrev pub shard_index : ℤ → ℕ → Option ℕ
shard_index (pos n) sn = some (n % sn)
shard_index (negsuc n) sn = if nat_beq (suc n % sn) 0 then some 0 else none

abbrev pub by_last_digits : ℕ → Vertex → Option ℕ
by_last_digits sn v = do
  guard (leb 8 (length v.addr))
  num ← parse_int (drop (length v.addr - 8) v.addr)
  guard (ltb 0 sn)
  shard_index num sn

abbrev pub with_shards : ℕ → List Vertex → Option (List (Vertex × ℕ))
with_shards sn [] = some []
with_shards sn (v ∷ vs) = elim (by_last_digits sn v) [
  | none ↦ none
  | some shard ↦ elim (with_shards sn vs) [ none ↦ none | some rest ↦ some ((v, shard) ∷ rest) ]
]

-- `cnt % ShardNum`
abbrev pub round_robin : ℕ → ℕ → List Vertex → List (Vertex × ℕ)
round_robin sn cnt [] = []
round_robin sn cnt (v ∷ vs) = (v, cnt % sn) ∷ round_robin sn (suc cnt) vs

abbrev pub has_prefix : Bytes → Bytes → Bool
has_prefix prefix addr =
    leb (length prefix) (length addr) && bytes_beq (take (length prefix) addr) prefix

unfoldable pub move_prefix :
    Bytes → ℕ → List Vertex → Dict Vertex ℕ × List ℤ → Option (Dict Vertex ℕ × List ℤ)
unfolding bump
move_prefix prefix new [] counts = some counts
move_prefix prefix new (v ∷ vs) (pm, nums) =
    let old = shard_of pm v in
    let step =
      if has_prefix prefix v.addr && not (nat_beq old new)
      then (bump old (negsuc 0) nums >>= λ down.
          bump new (pos 1) down >>= λ up. some (insert v new pm, up))
      else some (pm, nums) in
    elim step [ none ↦ none | some counts ↦ move_prefix prefix new vs counts ]

pub data StableInit (A : Type 0) : Type 0 where
  too_many_shards : StableInit A
  started : A → StableInit A

module _ (fl : Floats) where
  abbrev pub start_with : List (Vertex × ℕ) → ClpaState fl → Option (ClpaState fl)
  start_with chosen cs = do
    (pm, nums) ← assign fl chosen ([], zeros cs.shard_num)
    compute_edges2shard fl (record cs { partition_map = pm; vertexs_num_in_shard = nums })

  unfoldable pub init_partition : ClpaState fl → Option (ClpaState fl)
  unfolding parse_int compute_edges2shard
  init_partition cs = do
    chosen ← with_shards cs.shard_num (vertices cs.net_graph)
    start_with chosen cs

  -- An error leaves the state as it is. Without shards and with vertices the remainder panics.
  unfoldable pub stable_init_partition : ClpaState fl → Option (StableInit (ClpaState fl))
  unfolding compute_edges2shard
  stable_init_partition cs =
      let vs = vertices cs.net_graph in
      if ltb (length vs) cs.shard_num
      then some too_many_shards
      else if nat_beq cs.shard_num 0 && ltb 0 (length vs)
      then none
      else (do cs' ← start_with (round_robin cs.shard_num 0 vs) cs; some (started cs'))

  unfoldable pub update_prefix_shard : Bytes → ℕ → ClpaState fl → Option (ClpaState fl)
  unfolding move_prefix
  update_prefix_shard prefix new_shard cs = do
    (pm, nums) ←
        move_prefix prefix new_shard (vertices cs.net_graph)
          (cs.partition_map, cs.vertexs_num_in_shard)
    some (record cs { partition_map = pm; vertexs_num_in_shard = nums })
