-- ===== src/Broker/Moved.antt =====
-- What a leader of the CLPA-Broker mode sends away with the accounts
-- (accountTransfermod_Broker.go, sendAccounts_and_Txs).
use blockchain_sharding.Base.{
  ℕ, ◌+◌, ◌≡◌, refl, ap, ◌∙◌, Bool, some, List, [], ◌∷◌, ◌++◌, Bytes, Dict, keep, count,
  count-append, append-nil, All, arith, if◌then◌else◌,
}
use blockchain_sharding.Core.Account.{AccountState}
use blockchain_sharding.Core.Transaction.{Transaction}
use blockchain_sharding.Chain.Backend.{Backend}
use blockchain_sharding.Chain.State.{fetch_accounts, fetch_from}
use blockchain_sharding.Chain.Execution.{HasState}
use blockchain_sharding.Pbft.Messages.{Out, Payload}
use blockchain_sharding.Pbft.Node.{PbftState}
use blockchain_sharding.Relay.Inside.{other_shards}
use blockchain_sharding.Clpa.State.{ClpaChain}
use blockchain_sharding.Clpa.Send.{last_map, side_by_side, accounts_to_fetch}
use blockchain_sharding.Clpa.Queue.{HasShard, accounts_to_fetch-total, sent_txs}
use blockchain_sharding.Broker.Transfer.{
  Fate, stays, goes_along, becomes_cross, fate, does_stay, does_go, does_cross, leaving_to,
  transfer_to_shards, transfer_accounts_and_txs,
}

-- The transactions that the supervisor is to deal with again.
abbrev cross_of : Out → List Transaction
cross_of (Out.to_shard m) = []
cross_of (Out.to_neighbors m) = []
cross_of (Out.to_supervisor m) = elim m [ Payload.inner_to_cross txs ↦ txs | _ ↦ [] ]
cross_of (Out.to_node ip m) = []
cross_of (Out.to_leader s m) = []

abbrev pub cross_txs : List Out → List Transaction
cross_txs [] = []
cross_txs (o ∷ outs) = cross_of o ++ cross_txs outs

one_fate :
    (f : Fate)
    → (if does_go f then 1 else 0)
        + (if does_cross f then 1 else 0)
        + (if does_stay f then 1 else 0)
      ≡ 1
one_fate stays = omega arith
one_fate goes_along = omega arith
one_fate becomes_cross = omega arith

count-fates :
    (q : Transaction → Bool) (kind : Transaction → Fate) (l : List Transaction)
    → count q (keep (λ x. does_go (kind x)) l)
        + count q (keep (λ x. does_cross (kind x)) l)
        + count q (keep (λ x. does_stay (kind x)) l)
      ≡ count q l
count-fates q kind [] = omega arith
count-fates q kind (x ∷ l) = ground (arith, count-fates q kind l, one_fate (kind x))

transfer_to_shards-count :
    (q : Transaction → Bool) (s : PbftState) (m : Dict Bytes ℕ)
    (accounts : List (Bytes × AccountState)) (sids : List ℕ) (queue : List Transaction)
    → let (queue', cross, outs) = transfer_to_shards s m accounts sids queue in
      count q (sent_txs outs) + count q cross + count q queue' ≡ count q queue
unfolding transfer_to_shards
transfer_to_shards-count q s m accounts [] queue = omega arith
transfer_to_shards-count q s m accounts (sid ∷ sids) queue =
    let kind = fate (leaving_to m accounts sid) in
    let left = keep (λ tx. does_stay (kind tx)) queue in
    let (queue', cross, outs) = transfer_to_shards s m accounts sids left in
    omega (
      arith,
      count-append q (keep (λ tx. does_go (kind tx)) queue) (sent_txs outs),
      count-append q (keep (λ tx. does_cross (kind tx)) queue) cross,
      count-fates q kind queue,
      transfer_to_shards-count q s m accounts sids left,
    )

-- The messages to the other leaders hold nothing for the supervisor.
transfer_to_shards-quiet :
    (s : PbftState) (m : Dict Bytes ℕ) (accounts : List (Bytes × AccountState)) (sids : List ℕ)
    (queue cross : List Transaction)
    → let outs =
        (transfer_to_shards s m accounts sids queue).2
        ++ Out.to_supervisor (Payload.inner_to_cross cross) ∷ [] in
      (cross_txs outs ≡ cross ++ [])
      × (sent_txs outs ≡ sent_txs (transfer_to_shards s m accounts sids queue).2)
unfolding transfer_to_shards
transfer_to_shards-quiet s m accounts [] queue cross = (refl, refl)
transfer_to_shards-quiet s m accounts (sid ∷ sids) queue cross =
    let kind = fate (leaving_to m accounts sid) in
    let (none_cross, same) =
      transfer_to_shards-quiet s m accounts sids (keep (λ tx. does_stay (kind tx)) queue) cross in
    (none_cross, ap (λ l. keep (λ tx. does_go (kind tx)) queue ++ l) same)

module _ (be : Backend) where
  open be use {tries}
  open tries use {Trie}

  -- What the leader has after it has sent the accounts `addrs`.
  abbrev pub after_sending :
      PbftState
      → ClpaChain be
      → Dict Bytes ℕ
      → List (Bytes × AccountState)
      → ClpaChain be × List Out
  after_sending p c m accounts =
      let bc = c.chain.bc in
      let (queue, cross, outs) =
        transfer_to_shards p m accounts (other_shards be p.shard_id bc.chain_config.shard_nums 0)
          bc.txpool.tx_queue in
      (
        record c {
          chain = record (c.chain) {
            bc = record bc { txpool = record (bc.txpool) { tx_queue = queue } };
          };
        },
        outs ++ Out.to_supervisor (Payload.inner_to_cross cross) ∷ [],
      )

  pub transfer_accounts_and_txs-run :
      (p : PbftState) (c : ClpaChain be) (m : Dict Bytes ℕ) (st : Trie)
      → last_map c.cdm.modified_map ≡ some m
      → All (λ e. HasShard be c.chain.bc e.0) m
      → HasState be c.chain.bc c.chain.bc.current_block.header.state_root st
      → (addrs : List Bytes) × (accounts_to_fetch be c.chain.bc p.shard_id m ≡ some addrs)
        × (transfer_accounts_and_txs be p c
            ≡ some (after_sending p c m (side_by_side addrs (fetch_from be st addrs))))
  unfolding transfer_accounts_and_txs fetch_accounts
  transfer_accounts_and_txs-run p c m st newest routed found =
      let (addrs, fetch) = accounts_to_fetch-total be c.chain.bc p.shard_id m routed in
      (addrs, fetch, rw (newest, transfer_accounts_and_txs) (rw fetch (rw found refl)))

  -- A leader of the CLPA-Broker mode whose current trie can be opened, and whose newest map names
  -- only addresses that have a shard, sends the accounts away without a panic, and loses and makes
  -- up no transaction: for every test, as many pass it among those sent to the other leaders, those
  -- given back to the supervisor and those left in the queue as did in the queue before.
  pub transfer_accounts_and_txs-count :
      (q : Transaction → Bool) (p : PbftState) (c : ClpaChain be) (m : Dict Bytes ℕ) (st : Trie)
      → last_map c.cdm.modified_map ≡ some m
      → All (λ e. HasShard be c.chain.bc e.0) m
      → HasState be c.chain.bc c.chain.bc.current_block.header.state_root st
      → (c' : ClpaChain be) × (outs : List Out) × (transfer_accounts_and_txs be p c
          ≡ some (c', outs))
        × (count q (sent_txs outs) + count q (cross_txs outs) + count q c'.chain.bc.txpool.tx_queue
            ≡ count q c.chain.bc.txpool.tx_queue)
  transfer_accounts_and_txs-count q p c m st newest routed found =
      let (addrs, fetch, run) = transfer_accounts_and_txs-run p c m st newest routed found in
      let accounts = side_by_side addrs (fetch_from be st addrs) in
      let sids = other_shards be p.shard_id c.chain.bc.chain_config.shard_nums 0 in
      let (queue, cross, outs) = transfer_to_shards p m accounts sids c.chain.bc.txpool.tx_queue in
      let (c', sent) = after_sending p c m accounts in
      let (only_cross, same) =
        transfer_to_shards-quiet p m accounts sids c.chain.bc.txpool.tx_queue cross in
      (
        c',
        sent,
        run,
        omega (
          arith,
          ap (count q) (only_cross ∙ append-nil cross),
          ap (count q) same,
          transfer_to_shards-count q p m accounts sids c.chain.bc.txpool.tx_queue,
        ),
      )
