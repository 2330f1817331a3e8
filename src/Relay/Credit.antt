-- ===== src/Relay/Credit.antt =====
-- A transaction between shards whose sender cannot pay (chain/blockchain.go, GetUpdateStatusTrie,
-- and pbftInside_module.go, HandleinCommit).
use blockchain_sharding.Base.{
  ℕ, ◌+◌, ◌≡◌, ◌≢◌, ◌∙◌, true, false, some, List, [], ◌∷◌, ◌++◌, Dict, bytes_beq_iff, nat_beq_iff,
  ltb_ℤ, ◌+ℤ◌, arith,
}
use blockchain_sharding.Core.Account.{deposit}
use blockchain_sharding.Core.Transaction.{Transaction}
use blockchain_sharding.Core.Txpool.{relays_of}
use blockchain_sharding.Chain.Backend.{Backend}
use blockchain_sharding.Chain.State.{
  BlockChain, get_partition_map, load_account, sender_in, recipient_in, credit_recipient, handle_tx,
}
use blockchain_sharding.Chain.Ledger.{balance_in, load_account-balance, balance_in-update}
use blockchain_sharding.Relay.Inside.{Sorted, mark_relayed, sort_tx}
use blockchain_sharding.Relay.Sorting.{is_placed, sort_tx-Sorts, sort_tx-runs}

module _ (be : Backend) where
  open be use {tries}
  open tries use {Trie}

  -- A transaction from one shard to another, whose sender has less than its value: executing it in
  -- the sender's shard changes no account, the leader of that shard relays it all the same, and
  -- executing the relayed transaction in the recipient's shard adds the value to the recipient's
  -- balance.
  pub unfunded_transfer_credited :
      (here there : BlockChain be) (from to : ℕ) (tx : Transaction) (i j : ℕ) (st st' : Trie)
      (cnt cnt' : ℕ) (s : Sorted) (relays : Dict ℕ (List Transaction))
      → get_partition_map be here tx.sender ≡ some from
      → get_partition_map be here tx.recipient ≡ some to
      → get_partition_map be there tx.recipient ≡ some to
      → here.chain_config.shard_id ≡ from
      → there.chain_config.shard_id ≡ to
      → from ≢ to
      → tx.relayed ≡ false
      → ltb_ℤ (balance_in be st tx.sender) tx.value ≡ true
      → s.pool.relay_pool ≡ some relays
      → (s' : Sorted) × (st'' : Trie) × (handle_tx be here i tx (st, cnt) ≡ some (st, cnt))
        × (sort_tx be here from tx s ≡ some s')
        × (relays_of s'.pool to ≡ relays_of s.pool to ++ mark_relayed be tx ∷ [])
        × (handle_tx be there j (mark_relayed be tx) (st', cnt') ≡ some (st'', cnt' + 1))
        × (balance_in be st'' tx.recipient ≡ balance_in be st' tx.recipient +ℤ tx.value)
  unfolding handle_tx sender_in recipient_in credit_recipient deposit
  unfunded_transfer_credited here there from to tx i j st st' cnt cnt' s relays es er er' own own'
        differ fresh poor e =
      let placed : is_placed be here from tx ≡ true =
        ground (arith, es, er, fresh, nat_beq_iff from from) in
      let (s', run) = sort_tx-runs be here from tx s relays e placed in
      let (has, sorts) = sort_tx-Sorts be here from to tx s s' relays e run in
      let r = load_account be st' j tx.recipient in
      (
        s',
        tries.update st' tx.recipient (be.codec.encode_as (deposit r tx.value)),
        ground (
          arith,
          es,
          own,
          fresh,
          poor,
          load_account-balance be st i tx.sender,
          nat_beq_iff from from,
        ),
        run,
        ground (arith, sorts, er, differ, nat_beq_iff to from, nat_beq_iff to to),
        ground (arith, er', own', nat_beq_iff to to),
        balance_in-update be st' tx.recipient (deposit r tx.value) tx.recipient
            ∙ ground (
              arith,
              bytes_beq_iff tx.recipient tx.recipient,
              load_account-balance be st' j tx.recipient,
            ),
      )
