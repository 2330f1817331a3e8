-- ===== src/Broker/Repartitioned.antt =====
-- The queue of a shard of the CLPA-Broker mode after a re-partitioning
-- (accountTransfermod_Broker.go).
use blockchain_sharding.Base.{
  ℕ, ◌<◌, ◌≡◌, refl, sym, ap, ◌∙◌, nat_beq, nat_beq_iff, Bool, true, false, not, ◌&&◌, Option, none,
  some, List, Bytes, Dict, lookup, contains, bytes_eq, All, arith, ℕ_discrete,
}
use blockchain_sharding.Core.Transaction.{Transaction}
use blockchain_sharding.Chain.Backend.{Backend}
use blockchain_sharding.Chain.State.{BlockChain, get_partition_map, fetch_from}
use blockchain_sharding.Chain.Execution.{HasState}
use blockchain_sharding.Pbft.Messages.{Out}
use blockchain_sharding.Pbft.Node.{PbftState}
use blockchain_sharding.Relay.Inside.{other_shards}
use blockchain_sharding.Clpa.State.{ClpaChain}
use blockchain_sharding.Clpa.Send.{last_map, side_by_side, accounts_to_fetch}
use blockchain_sharding.Clpa.Transfer.{update_partition_maps}
use blockchain_sharding.Clpa.Queue.{HasShard}
use blockchain_sharding.Broker.Inside.{Dealt}
use blockchain_sharding.Broker.Transfer.{fate, does_stay, leaving_to, transfer_accounts_and_txs}
use blockchain_sharding.Broker.Epoch.{deal_placed_txs}
use blockchain_sharding.Broker.Moved.{after_sending, transfer_accounts_and_txs-run}
use blockchain_sharding.Broker.Settled.{All-lookup}
use blockchain_sharding.Broker.Parts.{All-imp}
use blockchain_sharding.Broker.Placed.{
  needs_sender, needs_recipient, is_misplaced-needs, is_misplaced-false, fate-needs, WellPlaced,
  deal_placed_txs-total,
}
use blockchain_sharding.Broker.Leaving.{
  HasDistinctKeys, transfer_to_shards-stays, other_shards-All, leaving-contains,
  accounts_to_fetch-among, get_partition_map-update,
}

module _ (be : Backend) where
  -- The shard of an account that did not leave.
  stays_here :
      (bc : BlockChain be) (n me : ℕ) (m : Dict Bytes ℕ) (st : be.tries.Trie) (addrs : List Bytes)
      (a : Bytes)
      → HasDistinctKeys m
      → All (λ e. e.1 < n) m
      → accounts_to_fetch be bc me m ≡ some addrs
      → get_partition_map be bc a ≡ some me
      → All
          (λ sid.
            contains a (leaving_to m (side_by_side addrs (fetch_from be st addrs)) sid) ≡ false)
          (other_shards be me n 0)
      → get_partition_map be (update_partition_maps be m bc) a ≡ some me
  stays_here bc n me m st addrs a distinct small run now stayed =
      get_partition_map-update be m bc a distinct ∙ new (lookup a m) refl
    where
      new :
          (r : Option ℕ)
          → lookup a m ≡ r
          → (elim r [ none ↦ get_partition_map be bc a | some v ↦ some v ]) ≡ some me
      new none e = now
      new (some v) e = elim (ℕ_discrete v me) [
        | yes same ↦ ap some same
        | no other ↦
            let left =
              leaving-contains be st m v a addrs
                (accounts_to_fetch-among be bc me m addrs a v run now e other)
                (ap (λ o. elim o [ none ↦ 0 | some v ↦ v ]) e) in
            let kept =
              other_shards-All be
                (λ sid.
                  contains a (leaving_to m (side_by_side addrs (fetch_from be st addrs)) sid)
                  ≡ false)
                me n 0 v stayed (ground arith)
                (omega (arith, All-lookup (λ v. v < n) a v m e small)) other in
            absurd (ground (arith, left, kept))
      ]

  -- The shard of a party after the re-partitioning, and that one that has to be here is.
  placed_party :
      (bc : BlockChain be) (n me : ℕ) (m : Dict Bytes ℕ) (st : be.tries.Trie) (addrs : List Bytes)
      (a : Bytes) (needed : Bool) (s : ℕ)
      → HasDistinctKeys m
      → All (λ e. e.1 < n) m
      → accounts_to_fetch be bc me m ≡ some addrs
      → get_partition_map be bc a ≡ some s
      → (needed && not (nat_beq s me)) ≡ false
      → All
          (λ sid.
            (needed && contains a (leaving_to m (side_by_side addrs (fetch_from be st addrs)) sid))
            ≡ false)
          (other_shards be me n 0)
      → (s' : ℕ) × (get_partition_map be (update_partition_maps be m bc) a ≡ some s')
        × ((needed && not (nat_beq s' me)) ≡ false)
  placed_party bc n me m st addrs a true s distinct small run at here stayed = (
    me,
    stays_here bc n me m st addrs a distinct small run
        (at ∙ ap some (ground (arith, here, nat_beq_iff s me))) stayed,
    ground (arith, nat_beq_iff me me),
  )
  placed_party bc n me m st addrs a false s distinct small run at here stayed =
      new (lookup a m) refl
    where
      new :
          (r : Option ℕ)
          → lookup a m ≡ r
          → (s' : ℕ) × (get_partition_map be (update_partition_maps be m bc) a ≡ some s')
            × (false ≡ false)
      new none e = (
        s,
        get_partition_map-update be m bc a distinct
            ∙ ap (λ o. elim o [ none ↦ get_partition_map be bc a | some v ↦ some v ]) e
            ∙ at,
        refl,
      )
      new (some v) e = (
        v,
        get_partition_map-update be m bc a distinct
            ∙ ap (λ o. elim o [ none ↦ get_partition_map be bc a | some v ↦ some v ]) e,
        refl,
      )

  WellPlaced-kept :
      (bc : BlockChain be) (n me : ℕ) (m : Dict Bytes ℕ) (st : be.tries.Trie) (addrs : List Bytes)
      (tx : Transaction)
      → HasDistinctKeys m
      → All (λ e. e.1 < n) m
      → accounts_to_fetch be bc me m ≡ some addrs
      → WellPlaced be bc me tx
      → All
          (λ sid.
            does_stay (fate (leaving_to m (side_by_side addrs (fetch_from be st addrs)) sid) tx)
            ≡ true)
          (other_shards be me n 0)
      → WellPlaced be (update_partition_maps be m bc) me tx
  WellPlaced-kept bc n me m st addrs tx distinct small run (regular, ssid, rsid, es, er, placed)
        stayed =
      let leaving = λ (sid : ℕ). leaving_to m (side_by_side addrs (fetch_from be st addrs)) sid in
      let sids = other_shards be me n 0 in
      let needs = is_misplaced-needs be (nat_beq ssid me) (nat_beq rsid me) tx regular in
      let (s, new_s, s_here) =
        placed_party bc n me m st addrs tx.sender (needs_sender tx) ssid distinct small run es
          (ground (arith, placed, needs))
          (All-imp (λ sid. does_stay (fate (leaving sid) tx) ≡ true)
            (λ sid. (needs_sender tx && contains tx.sender (leaving sid)) ≡ false) sids
            (λ sid h. ground (arith, h, fate-needs (leaving sid) tx regular)) stayed) in
      let (r, new_r, r_here) =
        placed_party bc n me m st addrs tx.recipient (needs_recipient tx) rsid distinct small run er
          (ground (arith, placed, needs))
          (All-imp (λ sid. does_stay (fate (leaving sid) tx) ≡ true)
            (λ sid. (needs_recipient tx && contains tx.recipient (leaving sid)) ≡ false) sids
            (λ sid h. ground (arith, h, fate-needs (leaving sid) tx regular)) stayed) in
      (
        regular,
        s,
        r,
        new_s,
        new_r,
        is_misplaced-false be (nat_beq s me) (nat_beq r me) tx regular s_here r_here,
      )

  WellPlaced-same :
      (bc bc' : BlockChain be) (me : ℕ) (tx : Transaction)
      → ((a : Bytes) → get_partition_map be bc' a ≡ get_partition_map be bc a)
      → WellPlaced be bc me tx
      → WellPlaced be bc' me tx
  WellPlaced-same bc bc' me tx same (regular, ssid, rsid, es, er, placed) =
      (regular, ssid, rsid, same tx.sender ∙ es, same tx.recipient ∙ er, placed)

  -- A leader of the CLPA-Broker mode whose current trie can be opened sends the accounts away for a
  -- map with different addresses, each of which has a shard and is given to one that exists. Where
  -- every transaction of its queue is regular (one within a shard names no other parties, a part is
  -- the first or the second) and has its needed parties in the shard, that holds of every
  -- transaction left in the queue for the partition with the map in it, so that none of them makes
  -- the leader panic once it is in a block.
  pub transfer_accounts_and_txs-WellPlaced :
      (p : PbftState) (c : ClpaChain be) (m : Dict Bytes ℕ) (st : be.tries.Trie)
      → last_map c.cdm.modified_map ≡ some m
      → HasDistinctKeys m
      → All (λ e. e.1 < c.chain.bc.chain_config.shard_nums) m
      → All (λ e. HasShard be c.chain.bc e.0) m
      → HasState be c.chain.bc c.chain.bc.current_block.header.state_root st
      → All (WellPlaced be c.chain.bc p.shard_id) c.chain.bc.txpool.tx_queue
      → (c' : ClpaChain be) × (outs : List Out) × (transfer_accounts_and_txs be p c
          ≡ some (c', outs))
        × All
            (WellPlaced be (update_partition_maps be m c'.chain.bc) p.shard_id)
            c'.chain.bc.txpool.tx_queue
        × (s : Dealt) × (deal_placed_txs be
              (update_partition_maps be m c'.chain.bc)
              p.shard_id
              c'.chain.bc.txpool.tx_queue
            ≡ some s)
  unfolding get_partition_map
  transfer_accounts_and_txs-WellPlaced p c m st newest distinct small routed found placed =
      let (addrs, fetch, run) = transfer_accounts_and_txs-run be p c m st newest routed found in
      let accounts = side_by_side addrs (fetch_from be st addrs) in
      let sids = other_shards be p.shard_id c.chain.bc.chain_config.shard_nums 0 in
      let (c', outs) = after_sending be p c m accounts in
      let bc' = update_partition_maps be m c'.chain.bc in
      let kept : All (WellPlaced be bc' p.shard_id) c'.chain.bc.txpool.tx_queue =
        All-imp
          (λ tx.
            WellPlaced be c.chain.bc p.shard_id tx
            × All (λ sid. does_stay (fate (leaving_to m accounts sid) tx) ≡ true) sids)
          (WellPlaced be bc' p.shard_id) c'.chain.bc.txpool.tx_queue
          (λ tx h.
            WellPlaced-same (update_partition_maps be m c.chain.bc) bc' p.shard_id tx
              (λ a.
                get_partition_map-update be m c'.chain.bc a distinct
                ∙ sym (get_partition_map-update be m c.chain.bc a distinct))
              (WellPlaced-kept c.chain.bc c.chain.bc.chain_config.shard_nums p.shard_id m st addrs
                tx distinct small fetch h.0 h.1))
          (transfer_to_shards-stays (WellPlaced be c.chain.bc p.shard_id) p m accounts sids
            c.chain.bc.txpool.tx_queue placed) in
      let (s, total) = deal_placed_txs-total be bc' p.shard_id c'.chain.bc.txpool.tx_queue kept in
      (c', outs, run, kept, s, total)
