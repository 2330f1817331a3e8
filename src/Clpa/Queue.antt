-- ===== src/Clpa/Queue.antt =====
-- The transactions that leave the pool with the accounts (accountTransfer_module.go,
-- sendAccounts_and_Txs).
use blockchain_sharding.Base.{
  ℕ, ◌+◌, ◌≡◌, inl, inr, nat_beq, refl, Bool, not, Option, none, some, List, [], ◌∷◌, ◌++◌, Bytes,
  Dict, keep, count, count-append, All, arith, if◌then◌else◌, Bool-cases,
}
use blockchain_sharding.Core.Account.{AccountState}
use blockchain_sharding.Core.Transaction.{Transaction}
use blockchain_sharding.Chain.Backend.{Backend}
use blockchain_sharding.Chain.State.{BlockChain, fetch_accounts, get_partition_map}
use blockchain_sharding.Chain.Execution.{HasState}
use blockchain_sharding.Pbft.Messages.{Out, Payload}
use blockchain_sharding.Pbft.Node.{PbftState}
use blockchain_sharding.Relay.Inside.{other_shards}
use blockchain_sharding.Clpa.State.{ClpaChain}
use blockchain_sharding.Clpa.Send.{
  last_map, accounts_for, addr_set, goes_along, left_after, send_to_shards, accounts_to_fetch,
  leaves, send_accounts_and_txs, side_by_side,
}

-- The transactions of the messages between leaders.
abbrev pub txs_of : Out → List Transaction
txs_of (Out.to_shard m) = []
txs_of (Out.to_neighbors m) = []
txs_of (Out.to_supervisor m) = []
txs_of (Out.to_node ip m) = []
txs_of (Out.to_leader s m) = elim m [ Payload.account_state_and_tx at ↦ at.txs | _ ↦ [] ]

abbrev pub sent_txs : List Out → List Transaction
sent_txs [] = []
sent_txs (o ∷ outs) = txs_of o ++ sent_txs outs

count-keep :
    (p q : Transaction → Bool) (l : List Transaction)
    → count p (keep q l) + count p (keep (λ x. not (q x)) l) ≡ count p l
count-keep p q [] = omega arith
count-keep p q (x ∷ l) = ground (arith, count-keep p q l)

send_to_shards-count :
    (p : Transaction → Bool) (s : PbftState) (m : Dict Bytes ℕ)
    (accounts : List (Bytes × AccountState)) (sids : List ℕ) (queue : List Transaction)
    → count p (sent_txs (send_to_shards s m accounts sids queue).1)
        + count p (send_to_shards s m accounts sids queue).0
      ≡ count p queue
unfolding send_to_shards
send_to_shards-count p s m accounts [] queue = omega arith
send_to_shards-count p s m accounts (sid ∷ sids) queue =
    let along = goes_along (addr_set (accounts_for m sid accounts)) in
    omega (
      arith,
      count-append p (keep along queue)
          (sent_txs (send_to_shards s m accounts sids (left_after m accounts sid queue)).1),
      count-keep p along queue,
      send_to_shards-count p s m accounts sids (left_after m accounts sid queue),
    )

module _ (be : Backend) where
  open be use {tries}
  open tries use {Trie}

  sent-count :
      (p : Transaction → Bool) (s : PbftState) (c c' : ClpaChain be) (outs : List Out)
      → send_accounts_and_txs be s c ≡ some (c', outs)
      → count p (sent_txs outs) + count p c'.chain.bc.txpool.tx_queue
        ≡ count p c.chain.bc.txpool.tx_queue
  unfolding send_accounts_and_txs
  sent-count p s c c' outs h = go (last_map c.cdm.modified_map) refl
    where
      go :
          (x : Option (Dict Bytes ℕ))
          → last_map c.cdm.modified_map ≡ x
          → count p (sent_txs outs) + count p c'.chain.bc.txpool.tx_queue
            ≡ count p c.chain.bc.txpool.tx_queue
      go none e = ground (arith, h, e)
      go (some m) e = inner (accounts_to_fetch be c.chain.bc s.shard_id m) refl
        where
          inner :
              (y : Option (List Bytes))
              → accounts_to_fetch be c.chain.bc s.shard_id m ≡ y
              → count p (sent_txs outs) + count p c'.chain.bc.txpool.tx_queue
                ≡ count p c.chain.bc.txpool.tx_queue
          inner none e' = ground (arith, h, e, e')
          inner (some addrs) e' = last (fetch_accounts be c.chain.bc addrs) refl
            where
              last :
                  (z : Option (List AccountState))
                  → fetch_accounts be c.chain.bc addrs ≡ z
                  → count p (sent_txs outs) + count p c'.chain.bc.txpool.tx_queue
                    ≡ count p c.chain.bc.txpool.tx_queue
              last none e'' = ground (arith, h, e, e', e'')
              last (some states) e'' = ground (
                arith,
                h,
                e,
                e',
                e'',
                send_to_shards-count p s m (side_by_side addrs states)
                    (other_shards be s.shard_id c.chain.bc.chain_config.shard_nums 0)
                    c.chain.bc.txpool.tx_queue,
              )

  abbrev pub HasShard : BlockChain be → Bytes → Type 0
  HasShard bc addr = (sid : ℕ) × (get_partition_map be bc addr ≡ some sid)

  pub accounts_to_fetch-total :
      (bc : BlockChain be) (shard_id : ℕ) (m : Dict Bytes ℕ)
      → All (λ e. HasShard bc e.0) m
      → (addrs : List Bytes) × (accounts_to_fetch be bc shard_id m ≡ some addrs)
  unfolding accounts_to_fetch leaves
  accounts_to_fetch-total bc shard_id [] h = ([], refl)
  accounts_to_fetch-total bc shard_id ((key, val) ∷ m) ((sid, e), rest) =
      let (addrs, run) = accounts_to_fetch-total bc shard_id m rest in
      elim (Bool-cases (nat_beq val shard_id)) [
        | inl stays ↦ (addrs, ground (arith, stays, run))
        | inr moves ↦
            (if nat_beq sid shard_id then key ∷ addrs else addrs, ground (arith, moves, e, run))
      ]

  -- A leader whose current trie can be opened, and whose newest map names only addresses that have
  -- a shard, sends the accounts away without a panic, and loses and makes up no transaction: for
  -- every test, as many pass it among those sent to the other leaders and those left in the queue
  -- as did in the queue before.
  pub send_accounts_and_txs-count :
      (p : Transaction → Bool) (s : PbftState) (c : ClpaChain be) (m : Dict Bytes ℕ) (st : Trie)
      → last_map c.cdm.modified_map ≡ some m
      → All (λ e. HasShard c.chain.bc e.0) m
      → HasState be c.chain.bc c.chain.bc.current_block.header.state_root st
      → (c' : ClpaChain be) × (outs : List Out) × (send_accounts_and_txs be s c ≡ some (c', outs))
        × (count p (sent_txs outs) + count p c'.chain.bc.txpool.tx_queue
            ≡ count p c.chain.bc.txpool.tx_queue)
  unfolding send_accounts_and_txs fetch_accounts
  send_accounts_and_txs-count p s c m st newest routed found =
      let (addrs, fetch) = accounts_to_fetch-total c.chain.bc s.shard_id m routed in
      go (send_accounts_and_txs be s c) refl addrs fetch
    where
      go :
          (r : Option (ClpaChain be × List Out))
          → send_accounts_and_txs be s c ≡ r
          → (addrs : List Bytes) → accounts_to_fetch be c.chain.bc s.shard_id m ≡ some addrs
          → (c' : ClpaChain be) × (outs : List Out) × (send_accounts_and_txs be s c
              ≡ some (c', outs))
            × (count p (sent_txs outs) + count p c'.chain.bc.txpool.tx_queue
                ≡ count p c.chain.bc.txpool.tx_queue)
      go (some (c', outs)) e addrs fetch = (c', outs, e, sent-count p s c c' outs e)
      go none e addrs fetch = absurd (ground (arith, e, newest, fetch, found))
