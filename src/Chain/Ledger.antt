-- ===== src/Chain/Ledger.antt =====
-- The execution of a block against an abstract ledger, which gives each address its balance.
use mathlib.Core.Path.{fun_ext}
use blockchain_sharding.Base.{
  ℕ, ◌+◌, ◌≡◌, refl, ap, ◌∙◌, inl, inr, Bool, true, false, not, ◌&&◌, ◌||◌, nat_beq, none, some,
  List, [], ◌∷◌, Bytes, bytes_beq, bytes_beq_iff, ltb_ℤ, ℤ, if◌then◌else◌, ◌+ℤ◌, ◌-ℤ◌, All, arith,
  Bool-cases,
}
use blockchain_sharding.Params.{init_balance}
use blockchain_sharding.Core.Account.{AccountState, deduct, deposit}
use blockchain_sharding.Core.Transaction.{Transaction}
use blockchain_sharding.Chain.Backend.{Backend}
use blockchain_sharding.Chain.State.{
  BlockChain, get_partition_map, load_account, sender_in, recipient_in, credit_recipient, handle_tx,
  handle_txs,
}

-- Specification: the balance of each address.
abbrev pub LedgerView : Type 0
LedgerView = Bytes → ℤ

unfoldable pub credit : LedgerView → Bytes → ℤ → LedgerView
credit l a v x = if bytes_beq a x then l x +ℤ v else l x

unfoldable pub debit : LedgerView → Bytes → ℤ → LedgerView
debit l a v x = if bytes_beq a x then l x -ℤ v else l x

-- A transaction whose sender, and whose recipient, is or is not kept by this shard.
unfoldable pub transfer : Bool → Bool → Transaction → LedgerView → LedgerView
unfolding credit debit
transfer from_here to_here tx l =
    let covered = not (ltb_ℤ (l tx.sender) tx.value) in
    let l' = if from_here then debit l tx.sender tx.value else l in
    if from_here && not covered then l else if to_here then credit l' tx.recipient tx.value else l'

unfoldable pub transfers :
    (Transaction → Bool) → (Transaction → Bool) → List Transaction → LedgerView → LedgerView
transfers from_here to_here [] l = l
transfers from_here to_here (tx ∷ txs) l =
    transfers from_here to_here txs (transfer (from_here tx) (to_here tx) tx l)

-- Whether the shard `own` is to debit the sender and to credit the recipient, with `shard_of` the
-- shard of each address.
abbrev pub debits : ℕ → (Bytes → ℕ) → Transaction → Bool
debits own shard_of tx = not tx.relayed && (nat_beq (shard_of tx.sender) own || tx.has_broker)

abbrev pub credits : ℕ → (Bytes → ℕ) → Transaction → Bool
credits own shard_of tx = nat_beq (shard_of tx.recipient) own || tx.has_broker

module _ (be : Backend) where
  open be use {tries, codec}
  open tries use {Trie, get, update, get-update}
  open codec use {encode_as, decode_as, decode_as-encode_as}

  -- What the status trie says of a balance.
  unfoldable pub balance_in : Trie → LedgerView
  balance_in st a = elim (get st a) [ none ↦ init_balance | some enc ↦ (decode_as enc).balance ]

  pub load_account-balance :
      (st : Trie) (i : ℕ) (a : Bytes) → (load_account be st i a).balance ≡ balance_in st a
  unfolding load_account balance_in
  load_account-balance st i a = ground arith

  pub balance_in-update :
      (st : Trie) (k : Bytes) (s : AccountState) (x : Bytes)
      → balance_in (update st k (encode_as s)) x
        ≡ (if bytes_beq k x then s.balance else balance_in st x)
  unfolding balance_in
  balance_in-update st k s x =
      ground (arith, get-update st k (encode_as s) x, decode_as-encode_as s)

  credit_recipient_lem :
      (bc : BlockChain be) (i : ℕ) (tx : Transaction) (to_here : Bool) (st : Trie) (cnt : ℕ)
      → recipient_in be bc tx ≡ some to_here
      → (st' : Trie) × (cnt' : ℕ) × (credit_recipient be bc i tx (st, cnt) ≡ some (st', cnt'))
        × (balance_in st'
            ≡ (if to_here then credit (balance_in st) tx.recipient tx.value else balance_in st))
  unfolding credit_recipient credit deposit
  credit_recipient_lem bc i tx true st cnt h = (
    update st tx.recipient (encode_as (deposit (load_account be st i tx.recipient) tx.value)),
    cnt + 1,
    rw h refl,
    fun_ext λ x. ground (
      arith,
      balance_in-update st tx.recipient (deposit (load_account be st i tx.recipient) tx.value) x,
      load_account-balance st i tx.recipient,
      bytes_beq_iff tx.recipient x,
    ),
  )
  credit_recipient_lem bc i tx false st cnt h = (st, cnt, rw h refl, refl)

  deduct-balance :
      (st : Trie) (i : ℕ) (tx : Transaction)
      → ltb_ℤ (balance_in st tx.sender) tx.value ≡ false
      → balance_in
          (update st tx.sender (encode_as (deduct (load_account be st i tx.sender) tx.value).0))
        ≡ debit (balance_in st) tx.sender tx.value
  unfolding debit deduct
  deduct-balance st i tx h = fun_ext λ x. ground (
    arith,
    balance_in-update st tx.sender (deduct (load_account be st i tx.sender) tx.value).0 x,
    load_account-balance st i tx.sender,
    bytes_beq_iff tx.sender x,
  )

  -- The result of one round, when both shards are known.
  abbrev pub Executes : BlockChain be → ℕ → Transaction → Trie × ℕ → LedgerView → Type 0
  Executes bc i tx (st, cnt) l =
      (st' : Trie) × (cnt' : ℕ) × (handle_tx be bc i tx (st, cnt) ≡ some (st', cnt'))
      × (balance_in st' ≡ l)

  handle_tx-Executes :
      (bc : BlockChain be) (i : ℕ) (tx : Transaction) (from_here to_here : Bool) (st : Trie)
      (cnt : ℕ)
      → sender_in be bc tx ≡ some from_here
      → recipient_in be bc tx ≡ some to_here
      → Executes bc i tx (st, cnt) (transfer from_here to_here tx (balance_in st))
  unfolding handle_tx transfer
  handle_tx-Executes bc i tx false to_here st cnt hs hr =
      let (st', cnt', e, v) = credit_recipient_lem bc i tx to_here st cnt hr in
      (st', cnt', rw hs e, v)
  handle_tx-Executes bc i tx true to_here st cnt hs hr =
      elim (Bool-cases (ltb_ℤ (balance_in st tx.sender) tx.value)) [
        | inl poor ↦
            (st, cnt, rw (hs, load_account-balance st i tx.sender, poor) refl, rw poor refl)
        | inr covered ↦
            (let st1 =
                update st tx.sender
                  (encode_as (deduct (load_account be st i tx.sender) tx.value).0) in
              let (st', cnt', e, v) = credit_recipient_lem bc i tx to_here st1 (cnt + 1) hr in
              (
                st',
                cnt',
                rw (hs, load_account-balance st i tx.sender, covered) e,
                rw covered (
                    v
                    ∙ ap (λ l. if to_here then credit l tx.recipient tx.value else l)
                        (deduct-balance st i tx covered)),
              ))
      ]

  -- The shards of a transaction's two ends, as the code looks them up.
  abbrev pub IsRouted :
      BlockChain be → (Transaction → Bool) → (Transaction → Bool) → Transaction → Type 0
  IsRouted bc from_here to_here tx =
      (sender_in be bc tx ≡ some (from_here tx)) × (recipient_in be bc tx ≡ some (to_here tx))

  -- Executing a list of transactions, by what the code finds out of their shards.
  pub handle_txs-ledger :
      (bc : BlockChain be) (from_here to_here : Transaction → Bool) (i : ℕ) (txs : List Transaction)
      (st : Trie) (cnt : ℕ)
      → All (IsRouted bc from_here to_here) txs
      → (st' : Trie) × (cnt' : ℕ) × (handle_txs be bc i txs (st, cnt) ≡ some (st', cnt'))
        × (balance_in st' ≡ transfers from_here to_here txs (balance_in st))
  unfolding handle_txs transfers
  handle_txs-ledger bc from_here to_here i [] st cnt h = (st, cnt, refl, refl)
  handle_txs-ledger bc from_here to_here i (tx ∷ txs) st cnt ((hs, hr), rest) =
      let (st1, cnt1, e, v) = handle_tx-Executes bc i tx (from_here tx) (to_here tx) st cnt hs hr in
      let (st2, cnt2, e2, v2) = handle_txs-ledger bc from_here to_here (i + 1) txs st1 cnt1 rest in
      (st2, cnt2, rw (e, handle_txs) e2, v2 ∙ ap (transfers from_here to_here txs) v)

  -- The shards of a transaction's ends; that of a relayed transaction's sender is not asked for.
  abbrev pub HasRoute : BlockChain be → (Bytes → ℕ) → Transaction → Type 0
  HasRoute bc shard_of tx =
      (tx.relayed ≡ false → get_partition_map be bc tx.sender ≡ some (shard_of tx.sender))
      × (get_partition_map be bc tx.recipient ≡ some (shard_of tx.recipient))

  HasRoute-IsRouted :
      (bc : BlockChain be) (shard_of : Bytes → ℕ) (tx : Transaction)
      → HasRoute bc shard_of tx
      → IsRouted bc
          (debits bc.chain_config.shard_id shard_of)
          (credits bc.chain_config.shard_id shard_of)
          tx
  unfolding sender_in recipient_in
  HasRoute-IsRouted bc shard_of tx (from, to) = elim (Bool-cases tx.relayed) [
    | inl e ↦ (ground (arith, e), ground (arith, to))
    | inr e ↦ (ground (arith, e, from e), ground (arith, to))
  ]

  pub All-HasRoute :
      (bc : BlockChain be) (shard_of : Bytes → ℕ) (txs : List Transaction)
      → All (HasRoute bc shard_of) txs
      → All
          (IsRouted bc
            (debits bc.chain_config.shard_id shard_of)
            (credits bc.chain_config.shard_id shard_of))
          txs
  All-HasRoute bc shard_of [] h = tt
  All-HasRoute bc shard_of (tx ∷ txs) (h, rest) =
      (HasRoute-IsRouted bc shard_of tx h, All-HasRoute bc shard_of txs rest)

  -- Executing a list of transactions does not panic, if the partition map gives a shard to every
  -- recipient, and to the sender of every transaction that is not relayed. It changes the balances
  -- of the status trie exactly as the abstract ledger says: in order, a transaction that is not
  -- relayed debits its sender, if this is the sender's shard or the transaction has a broker, and
  -- if the balance covers the value; where it does not, the transaction is skipped. A transaction
  -- that is not skipped credits its recipient, if this is the recipient's shard or the transaction
  -- has a broker; a relayed one does so without a debit.
  pub handle_txs-transfers :
      (bc : BlockChain be) (shard_of : Bytes → ℕ) (i : ℕ) (txs : List Transaction) (st : Trie)
      (cnt : ℕ)
      → All (HasRoute bc shard_of) txs
      → let own = bc.chain_config.shard_id in
        (st' : Trie) × (cnt' : ℕ) × (handle_txs be bc i txs (st, cnt) ≡ some (st', cnt'))
        × (balance_in st'
            ≡ transfers (debits own shard_of) (credits own shard_of) txs (balance_in st))
  handle_txs-transfers bc shard_of i txs st cnt h =
      handle_txs-ledger bc (debits bc.chain_config.shard_id shard_of)
        (credits bc.chain_config.shard_id shard_of) i txs st cnt (All-HasRoute bc shard_of txs h)
