-- ===== src/Partition/Aero.antt =====
-- partition/partition_AERO.go: the re-partitioning by groups of accounts with a common prefix. The
-- agent that is asked for the moves is a parameter: from what it is told, the moves that it
-- answers, or nothing where its run or the reading of its answer fails. Its shards are not
-- negative.
use blockchain_sharding.Base.{
  ℕ, ◌+◌, ◌&&◌, Option, none, some, List, [], ◌∷◌, Bytes, Dict, lookup, insert, nat_beq, bytes_beq,
  leb, ltb, ltb_ℤ, if◌then◌else◌, ℤ, pos, length, take, map, keep, ◌>>=◌, bytes_eq,
}
use blockchain_sharding.Message.{codes}
use blockchain_sharding.Partition.Graph.{Vertex, vertices, edges_of}
use blockchain_sharding.Partition.State.{
  Floats, ClpaState, bump, zeros, shard_of, compute_edges2shard,
}
use blockchain_sharding.Partition.Setup.{update_prefix_shard}

pub record PrefixStat : Type 0 where
  pub prefix : Bytes
  pub current_shard : ℕ
  pub tx_volume : ℕ
  pub cstx_volume : ℕ
  pub edges_to_shard : List ℤ

pub record Migration : Type 0 where
  pub prefix : Bytes
  pub to_shard : ℕ

abbrev pub prefix_len : ℕ
prefix_len = 2

-- The loop over the neighbours of a vertex.
unfoldable pub count_around : Dict Vertex ℕ → ℕ → List Vertex → PrefixStat → Option PrefixStat
unfolding bump
count_around pm v_shard [] stat = some stat
count_around pm v_shard (u ∷ us) stat =
    let at_u = shard_of pm u in
    elim (bump at_u (pos 1) stat.edges_to_shard) [
      | none ↦ none
      | some edges ↦ count_around pm v_shard us (record stat {
        tx_volume = stat.tx_volume + 1;
        cstx_volume = if nat_beq v_shard at_u then stat.cstx_volume else stat.cstx_volume + 1;
        edges_to_shard = edges;
      })
    ]

-- A group starts in the shard of its first account.
abbrev pub stat_of : ℕ → ℕ → Bytes → Dict Bytes PrefixStat → PrefixStat
stat_of shard_num v_shard p stats = elim (lookup p stats) [
  | some stat ↦ stat
  | none ↦ record {
    prefix = p;
    current_shard = v_shard;
    tx_volume = 0;
    cstx_volume = 0;
    edges_to_shard = zeros shard_num;
  }
]

-- The loop over the adjacency lists. Addresses that are too short are left out.
unfoldable pub group_by_prefix :
    ℕ
    → Dict Vertex ℕ
    → Dict Vertex (List Vertex)
    → Dict Bytes PrefixStat
    → Option (Dict Bytes PrefixStat)
unfolding count_around
group_by_prefix shard_num pm [] stats = some stats
group_by_prefix shard_num pm ((v, us) ∷ rest) stats =
    let p = take prefix_len v.addr in
    let v_shard = shard_of pm v in
    let step =
      if ltb (length v.addr) prefix_len
      then some stats
      else elim (count_around pm v_shard us (stat_of shard_num v_shard p stats)) [
        | none ↦ none
        | some stat ↦ some (insert p stat stats)
      ] in
    elim step [ none ↦ none | some stats' ↦ group_by_prefix shard_num pm rest stats' ]

-- The transactions, and those that cross shards, of the groups of each shard.
unfoldable pub shard_volumes : Dict Bytes PrefixStat → List ℤ × List ℤ → Option (List ℤ × List ℤ)
unfolding bump
shard_volumes [] totals = some totals
shard_volumes ((p, stat) ∷ rest) (total, cross) =
    let step = bump stat.current_shard (pos stat.tx_volume) total >>= λ total'.
    bump stat.current_shard (pos stat.cstx_volume) cross >>= λ cross'. some (total', cross') in
    elim step [ none ↦ none | some totals ↦ shard_volumes rest totals ]

abbrev pub sum_volumes : Dict Bytes PrefixStat → ℕ × ℕ
sum_volumes [] = (0, 0)
sum_volumes ((p, stat) ∷ rest) =
    let (cross, total) = sum_volumes rest in (stat.cstx_volume + cross, stat.tx_volume + total)

-- The accounts with the prefix of a move go into the result.
abbrev pub record_moves : Migration → List Vertex → Dict Bytes ℕ → Dict Bytes ℕ
record_moves mig [] res = res
record_moves mig (v ∷ vs) res =
    if leb prefix_len (length v.addr) && bytes_beq (take prefix_len v.addr) mig.prefix
    then record_moves mig vs (insert v.addr mig.to_shard res)
    else record_moves mig vs res

abbrev pub fake_addr : Bytes
fake_addr = codes "000000000000000000000000000000000000dead"

-- A result without an account gets an account that nobody has.
abbrev pub never_empty : Dict Bytes ℕ → Dict Bytes ℕ
never_empty [] = insert fake_addr 0 []
never_empty (r ∷ res) = r ∷ res

module _ (fl : Floats) where
  open fl use {Float, of_int, div}

  pub record AeroStatePayload : Type 0 where
    pub epoch : ℤ
    pub shard_loads : List ℤ
    pub shard_cstx_ratios : List Float
    pub global_cstx_ratio : Float
    pub candidate_prefixes : List PrefixStat

  -- The share of the transactions that cross shards.
  abbrev pub ratio : ℤ → ℤ → Float
  ratio cross total =
      if ltb_ℤ (pos 0) total then div (of_int cross) (of_int total) else of_int (pos 0)

  abbrev pub ratios : List ℤ → List ℤ → List Float
  ratios [] total = []
  ratios (c ∷ cross) [] = []
  ratios (c ∷ cross) (t ∷ total) = ratio c t ∷ ratios cross total

  unfoldable pub aero_payload : ℤ → ClpaState fl → Option AeroStatePayload
  unfolding group_by_prefix shard_volumes
  aero_payload epoch cs = do
    stats ← group_by_prefix cs.shard_num cs.partition_map (edges_of cs.net_graph) []
    (total, cross) ← shard_volumes stats (zeros cs.shard_num, zeros cs.shard_num)
    let (all_cross, all) = sum_volumes stats
    some (record {
      epoch = epoch;
      shard_loads = total;
      shard_cstx_ratios = ratios cross total;
      global_cstx_ratio = ratio (pos all_cross) (pos all);
      candidate_prefixes = keep (λ s. ltb 0 s.cstx_volume) (map (λ e. e.1) stats);
    })

  -- The moves one after the other.
  unfoldable pub migrate :
      List Migration → ClpaState fl × Dict Bytes ℕ → Option (ClpaState fl × Dict Bytes ℕ)
  migrate [] progress = some progress
  migrate (mig ∷ migs) (cs, res) = elim (update_prefix_shard fl mig.prefix mig.to_shard cs) [
    | none ↦ none
    | some cs' ↦ migrate migs (cs', record_moves mig (vertices cs'.net_graph) res)
  ]

  -- An empty result stands for the nil map of a failure.
  unfoldable pub aero_partition :
      (AeroStatePayload → Option (List Migration))
      → ℤ
      → ClpaState fl
      → Option (ClpaState fl × Dict Bytes ℕ)
  unfolding aero_payload migrate
  aero_partition agent epoch cs = do
    counted ← compute_edges2shard fl cs
    payload ← aero_payload epoch counted
    elim (agent payload) [
      | none ↦ some (counted, [])
      | some migs ↦ (do
        (moved, res) ← migrate migs (counted, [])
        cs' ← compute_edges2shard fl moved
        some (cs', never_empty res))
    ]
