-- ===== src/Chain/Execution.antt =====
-- `GetUpdateStatusTrie` as a whole: what is found under the root that it returns.
use blockchain_sharding.Base.{
  ℕ, zero, suc, ◌+◌, ◌≡◌, ◌<◌, ◌⊎◌, refl, inl, inr, Bool, false, Option, none, some, List, [], ◌∷◌,
  Bytes, All, arith, Option-cases, nat_beq,
}
use blockchain_sharding.Core.Account.{deduct}
use blockchain_sharding.Core.Transaction.{Transaction}
use blockchain_sharding.Chain.Backend.{Backend}
use blockchain_sharding.Chain.State.{
  BlockChain, load_account, sender_in, recipient_in, credit_recipient, handle_tx, handle_txs,
  get_update_status_trie,
}
use blockchain_sharding.Chain.Ledger.{IsRouted, transfers, balance_in, handle_txs-ledger}

nat_beq-suc : (n : ℕ) → nat_beq (suc n) 0 ≡ false
nat_beq-suc n = ground arith

module _ (be : Backend) where
  open be use {tries, codec}
  open tries use {Trie, TrieDb, root, open_trie, commit, open_trie-commit}

  -- The count of changed accounts tells whether the trie changed.
  abbrev pub Counts : Trie × ℕ → Trie × ℕ → Type 0
  Counts (st, cnt) (st', cnt') = ((cnt' ≡ cnt) × (st' ≡ st)) ⊎ (cnt < cnt')

  credit_recipient-Counts :
      (bc : BlockChain be) (i : ℕ) (tx : Transaction) (st : Trie) (cnt : ℕ) (st' : Trie) (cnt' : ℕ)
      → credit_recipient be bc i tx (st, cnt) ≡ some (st', cnt')
      → Counts (st, cnt) (st', cnt')
  unfolding credit_recipient
  credit_recipient-Counts bc i tx st cnt st' cnt' h =
      ground (arith, Option-cases (recipient_in be bc tx))

  handle_tx-Counts :
      (bc : BlockChain be) (i : ℕ) (tx : Transaction) (st : Trie) (cnt : ℕ) (st' : Trie) (cnt' : ℕ)
      → handle_tx be bc i tx (st, cnt) ≡ some (st', cnt')
      → Counts (st, cnt) (st', cnt')
  unfolding handle_tx
  handle_tx-Counts bc i tx st cnt st' cnt' h = ground (
    arith,
    Option-cases (sender_in be bc tx),
    credit_recipient-Counts bc i tx st cnt st' cnt',
    credit_recipient-Counts bc i tx
        (tries.update st tx.sender
          (codec.encode_as (deduct (load_account be st i tx.sender) tx.value).0))
        (cnt + 1) st' cnt',
  )

  handle_txs-Counts :
      (bc : BlockChain be) (i : ℕ) (txs : List Transaction) (st : Trie) (cnt : ℕ) (st' : Trie)
      (cnt' : ℕ)
      → handle_txs be bc i txs (st, cnt) ≡ some (st', cnt')
      → Counts (st, cnt) (st', cnt')
  unfolding handle_txs
  handle_txs-Counts bc i [] st cnt st' cnt' h = ground arith
  handle_txs-Counts bc i (tx ∷ txs) st cnt st' cnt' h =
      go (λ st1 cnt1. handle_txs-Counts bc (i + 1) txs st1 cnt1 st' cnt')
        (handle_tx be bc i tx (st, cnt)) refl
    where
      go :
          ((st1 : Trie) (cnt1 : ℕ)
            → handle_txs be bc (i + 1) txs (st1, cnt1) ≡ some (st', cnt')
            → Counts (st1, cnt1) (st', cnt'))
          → (r : Option (Trie × ℕ)) → handle_tx be bc i tx (st, cnt) ≡ r
          → Counts (st, cnt) (st', cnt')
      go more none e = ground arith
      go more (some (st1, cnt1)) e =
          ground (arith, handle_tx-Counts bc i tx st cnt st1 cnt1 e, more st1 cnt1)

  -- The state trie of a chain, found under the root of its current block.
  abbrev pub HasState : BlockChain be → Bytes → Trie → Type 0
  HasState bc r st = open_trie bc.triedb r ≡ some st

  status_trie_cases :
      (bc : BlockChain be) (tx : Transaction) (txs : List Transaction) (st st' : Trie) (cnt' : ℕ)
      → HasState bc bc.current_block.header.state_root st
      → handle_txs be bc 0 (tx ∷ txs) (st, 0) ≡ some (st', cnt')
      → (db : TrieDb) × (r : Bytes) × (get_update_status_trie be bc (tx ∷ txs)
          ≡ some (record bc { triedb = db }, r))
        × (open_trie db r ≡ some st')
  unfolding get_update_status_trie
  status_trie_cases bc tx txs st st' zero found e =
      let same = handle_txs-Counts bc 0 (tx ∷ txs) st 0 st' 0 e in
      (bc.triedb, bc.current_block.header.state_root, rw (found, e) refl, rw (unchanged same) found)
    where
      unchanged : Counts (st, 0) (st', 0) → st' ≡ st
      unchanged (inl (_, p)) = p
      unchanged (inr lt) = absurd (omega arith)
  status_trie_cases bc tx txs st st' (suc n) found e = (
    commit bc.triedb st',
    root st',
    rw (found, e, nat_beq-suc n) refl,
    open_trie-commit bc.triedb st',
  )

  -- Updating the status trie of a chain whose current root can be opened, for transactions whose
  -- shards can all be looked up, does not panic. The trie found under the returned root holds the
  -- balances of the abstract ledger after the transactions, whether or not any account changed;
  -- nothing of the chain but its trie database changes.
  pub get_update_status_trie-transfers :
      (bc : BlockChain be) (from_here to_here : Transaction → Bool) (txs : List Transaction)
      (st : Trie)
      → HasState bc bc.current_block.header.state_root st
      → All (IsRouted be bc from_here to_here) txs
      → (db : TrieDb) × (r : Bytes) × (st' : Trie) × (get_update_status_trie be bc txs
          ≡ some (record bc { triedb = db }, r))
        × (open_trie db r ≡ some st')
        × (balance_in be st' ≡ transfers from_here to_here txs (balance_in be st))
  unfolding get_update_status_trie transfers
  get_update_status_trie-transfers bc from_here to_here [] st found h =
      (bc.triedb, bc.current_block.header.state_root, st, refl, found, refl)
  get_update_status_trie-transfers bc from_here to_here (tx ∷ txs) st found h =
      let (st', cnt', e, v) = handle_txs-ledger be bc from_here to_here 0 (tx ∷ txs) st 0 h in
      let (db, r, run, has) = status_trie_cases bc tx txs st st' cnt' found e in
      (db, r, st', run, has, v)
