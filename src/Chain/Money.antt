-- ===== src/Chain/Money.antt =====
-- The money of the accounts of a shard along the execution of a block
-- (chain/blockchain.go, GetUpdateStatusTrie).
use blockchain_sharding.Base.{
  ℕ, ◌≡◌, ap, sym, ◌∙◌, subst, Bool, true, some, List, [], ◌∷◌, Bytes, pos, ◌≤ℤ◌, All,
}
use blockchain_sharding.Core.Transaction.{Transaction}
use blockchain_sharding.Chain.Backend.{Backend}
use blockchain_sharding.Chain.State.{BlockChain, handle_txs}
use blockchain_sharding.Chain.Ledger.{
  debits, credits, IsRouted, HasRoute, All-HasRoute, balance_in, handle_txs-ledger,
  handle_txs-transfers,
}
use blockchain_sharding.Chain.Conservation.{total, IsListed, total-transfers, transfers-nonneg}

module _ (be : Backend) where
  open be use {tries}
  open tries use {Trie}

  All-both :
      (bc : BlockChain be) (from_here to_here : Transaction → Bool) (txs : List Transaction)
      → All (IsRouted be bc from_here to_here) txs
      → All (λ tx. (from_here tx ≡ true) × (to_here tx ≡ true)) txs
      → All (IsRouted be bc (λ tx. true) (λ tx. true)) txs
  All-both bc from_here to_here [] h both = tt
  All-both bc from_here to_here (tx ∷ txs) ((s, r), rest) ((here, there), later) =
      ((s ∙ ap some here, r ∙ ap some there), All-both bc from_here to_here txs rest later)

  -- Transactions of which this shard does both parts neither make nor lose money. Let the partition
  -- map give a shard to both ends of every transaction, let no transaction be relayed, and let each
  -- have a broker or this shard for both its ends; let every end stand exactly once in a list of
  -- addresses. Then executing the transactions does not panic, and the addresses hold the same total
  -- before and after.
  pub handle_txs-total :
      (bc : BlockChain be) (shard_of : Bytes → ℕ) (i : ℕ) (txs : List Transaction) (st : Trie)
      (cnt : ℕ) (addrs : List Bytes)
      → All (HasRoute be bc shard_of) txs
      → All
          (λ tx.
            (debits bc.chain_config.shard_id shard_of tx ≡ true)
            × (credits bc.chain_config.shard_id shard_of tx ≡ true))
          txs
      → All (IsListed addrs) txs
      → (st' : Trie) × (cnt' : ℕ) × (handle_txs be bc i txs (st, cnt) ≡ some (st', cnt'))
        × (total (balance_in be st') addrs ≡ total (balance_in be st) addrs)
  handle_txs-total bc shard_of i txs st cnt addrs routed both listed =
      let here =
        All-both bc (debits bc.chain_config.shard_id shard_of)
          (credits bc.chain_config.shard_id shard_of) txs (All-HasRoute be bc shard_of txs routed)
          both in
      let (st', cnt', run, ledger) =
        handle_txs-ledger be bc (λ tx. true) (λ tx. true) i txs st cnt here in
      (
        st',
        cnt',
        run,
        ap (λ l. total l addrs) ledger ∙ total-transfers txs (balance_in be st) addrs listed,
      )

  -- Let the partition map give a shard to every recipient, and to the sender of every transaction
  -- that is not relayed. Executing such transactions of values that are not negative does not
  -- panic, and where no balance was below zero before, none is after.
  pub handle_txs-nonneg :
      (bc : BlockChain be) (shard_of : Bytes → ℕ) (i : ℕ) (txs : List Transaction) (st : Trie)
      (cnt : ℕ)
      → All (HasRoute be bc shard_of) txs
      → All (λ tx. pos 0 ≤ℤ tx.value) txs
      → ((x : Bytes) → pos 0 ≤ℤ balance_in be st x)
      → (x : Bytes)
      → (st' : Trie) × (cnt' : ℕ) × (handle_txs be bc i txs (st, cnt) ≡ some (st', cnt'))
        × (pos 0 ≤ℤ balance_in be st' x)
  handle_txs-nonneg bc shard_of i txs st cnt routed values before x =
      let (st', cnt', run, ledger) = handle_txs-transfers be bc shard_of i txs st cnt routed in
      (
        st',
        cnt',
        run,
        subst (λ l. pos 0 ≤ℤ l x) (sym ledger)
            (transfers-nonneg (debits bc.chain_config.shard_id shard_of)
              (credits bc.chain_config.shard_id shard_of) txs (balance_in be st) values before x),
      )
