-- ===== src/Relay/Sorting.antt =====
-- The sorting of a block's transactions by the leader (pbftInside_module.go), and the relay
-- messages that it sends.
use blockchain_sharding.Base.{
  ℕ, ◌+◌, ◌≡◌, refl, ap, ◌∙◌, Bool, true, false, not, ◌&&◌, Option, none, some, List, [], ◌∷◌, ◌++◌,
  map, Dict, nat_beq, bytes_eq, nat_eq, if◌then◌else◌, length, keep, All, arith, append_assoc,
  append-nil, length-map,
}
use blockchain_sharding.Core.Transaction.{Transaction}
use blockchain_sharding.Core.Txpool.{TxPool, add_relay_tx, relays_of}
use blockchain_sharding.Core.Txpool.Relays.{lookup_or-append_at}
use blockchain_sharding.Chain.Backend.{Backend}
use blockchain_sharding.Chain.State.{BlockChain, get_partition_map}
use blockchain_sharding.Relay.Inside.{Sorted, mark_relayed, sort_tx, sort_txs, unsorted}

module _ (be : Backend) (bc : BlockChain be) (shard_id : ℕ) where
  -- The shard of a recipient, 0 where it has none.
  abbrev pub goes_to : Transaction → ℕ
  goes_to tx = elim (get_partition_map be bc tx.recipient) [ none ↦ 0 | some s ↦ s ]

  -- The transactions of a body that stay, that have come, and that go on to a shard.
  abbrev pub inner : List Transaction → List Transaction
  inner txs = keep (λ tx. nat_beq (goes_to tx) shard_id && not tx.relayed) txs

  abbrev pub arrived : List Transaction → List Transaction
  arrived txs = keep (λ tx. nat_beq (goes_to tx) shard_id && tx.relayed) txs

  abbrev pub leaving : List Transaction → List Transaction
  leaving txs = keep (λ tx. not (nat_beq (goes_to tx) shard_id)) txs

  abbrev pub leaving_to : ℕ → List Transaction → List Transaction
  leaving_to sid txs =
      keep (λ tx. not (nat_beq (goes_to tx) shard_id) && nat_beq (goes_to tx) sid) txs

  -- What the sorting has done to a body, from one state to another.
  abbrev pub Sorts : ℕ → List Transaction → Sorted → Sorted → Type 0
  Sorts sid txs s s' =
      (s'.inner_shard_txs ≡ s.inner_shard_txs ++ inner txs)
      × (s'.relay2_txs ≡ s.relay2_txs ++ arrived txs)
      × (s'.relay1_txs ≡ s.relay1_txs ++ map (mark_relayed be) (leaving txs))
      × (relays_of s'.pool sid ≡ relays_of s.pool sid ++ map (mark_relayed be) (leaving_to sid txs))
      × (s'.pool.tx_queue ≡ s.pool.tx_queue)

  abbrev pub has_pool : Sorted → Bool
  has_pool s = elim s.pool.relay_pool [ none ↦ false | some _ ↦ true ]

  pub sort_tx-Sorts :
      (sid : ℕ) (tx : Transaction) (s s' : Sorted) (relays : Dict ℕ (List Transaction))
      → s.pool.relay_pool ≡ some relays
      → sort_tx be bc shard_id tx s ≡ some s'
      → (has_pool s' ≡ true) × Sorts sid (tx ∷ []) s s'
  unfolding sort_tx add_relay_tx
  sort_tx-Sorts sid tx s s' relays e h =
      go (get_partition_map be bc tx.sender) (get_partition_map be bc tx.recipient) refl refl
    where
      go :
          (a b : Option ℕ)
          → get_partition_map be bc tx.sender ≡ a
          → get_partition_map be bc tx.recipient ≡ b
          → (has_pool s' ≡ true) × Sorts sid (tx ∷ []) s s'
      go none b ea eb = ground (arith, h, e, ea, eb)
      go (some ssid) none ea eb = ground (arith, h, e, ea, eb)
      go (some ssid) (some rsid) ea eb = grind (
        arith,
        h,
        e,
        ea,
        eb,
        append-nil,
        lookup_or-append_at rsid sid (mark_relayed be tx) relays,
      )

  -- A transaction that the block of this shard may hold: both accounts have a shard, and it has
  -- arrived at its recipient's or is still at its sender's.
  abbrev pub is_placed : Transaction → Bool
  is_placed tx = elim (get_partition_map be bc tx.sender) [
    | none ↦ false
    | some ssid ↦ elim (get_partition_map be bc tx.recipient) [
      | none ↦ false
      | some rsid ↦ if tx.relayed then nat_beq rsid shard_id else nat_beq ssid shard_id
    ]
  ]

  pub sort_tx-runs :
      (tx : Transaction) (s : Sorted) (relays : Dict ℕ (List Transaction))
      → s.pool.relay_pool ≡ some relays
      → is_placed tx ≡ true
      → (s' : Sorted) × (sort_tx be bc shard_id tx s ≡ some s')
  unfolding sort_tx add_relay_tx
  sort_tx-runs tx s relays e placed =
      go (get_partition_map be bc tx.sender) (get_partition_map be bc tx.recipient) refl refl
        (sort_tx be bc shard_id tx s) refl
    where
      go :
          (a b : Option ℕ)
          → get_partition_map be bc tx.sender ≡ a
          → get_partition_map be bc tx.recipient ≡ b
          → (r : Option Sorted) → sort_tx be bc shard_id tx s ≡ r
          → (s' : Sorted) × (sort_tx be bc shard_id tx s ≡ some s')
      go a b ea eb (some s') er = (s', er)
      go none b ea eb none er = absurd (ground (arith, e, ea, eb, placed))
      go (some ssid) none ea eb none er = absurd (ground (arith, e, ea, eb, placed))
      go (some ssid) (some rsid) ea eb none er = absurd (ground (arith, er, e, ea, eb, placed))

  pool_of :
      (r : Option (Dict ℕ (List Transaction)))
      → (elim r [ none ↦ false | some _ ↦ true ]) ≡ true
      → (relays : Dict ℕ (List Transaction)) × (r ≡ some relays)
  pool_of none e = absurd (ground (arith, e))
  pool_of (some relays) e = (relays, refl)

  Sorts-then :
      (sid : ℕ) (tx : Transaction) (txs : List Transaction) (s s' s'' : Sorted)
      → Sorts sid (tx ∷ []) s s'
      → Sorts sid txs s' s''
      → Sorts sid (tx ∷ txs) s s''
  Sorts-then sid tx txs s s' s'' (a1, a2, a3, a4, a5) (b1, b2, b3, b4, b5) = (
    b1 ∙ ap (λ l. l ++ inner txs) a1 ∙ grind (arith, append_assoc),
    b2 ∙ ap (λ l. l ++ arrived txs) a2 ∙ grind (arith, append_assoc),
    b3 ∙ ap (λ l. l ++ map (mark_relayed be) (leaving txs)) a3 ∙ grind (arith, append_assoc),
    b4 ∙ ap (λ l. l ++ map (mark_relayed be) (leaving_to sid txs)) a4 ∙ grind (arith, append_assoc),
    b5 ∙ a5,
  )

  sort_txs-next :
      (tx : Transaction) (txs : List Transaction) (s s' : Sorted) (r : Option Sorted)
      → sort_tx be bc shard_id tx s ≡ some s'
      → sort_txs be bc shard_id txs s' ≡ r
      → sort_txs be bc shard_id (tx ∷ txs) s ≡ r
  unfolding sort_txs
  sort_txs-next tx txs s s' r e e' = rw (e, sort_txs) e'

  sort_txs-Sorts :
      (sid : ℕ) (txs : List Transaction) (s : Sorted) (relays : Dict ℕ (List Transaction))
      → s.pool.relay_pool ≡ some relays
      → All (λ tx. is_placed tx ≡ true) txs
      → (s' : Sorted) × (sort_txs be bc shard_id txs s ≡ some s') × Sorts sid txs s s'
  unfolding sort_txs
  sort_txs-Sorts sid [] s relays e placed = (s, refl, grind (arith, append-nil))
  sort_txs-Sorts sid (tx ∷ txs) s relays e (here, rest) =
      let (s', run) = sort_tx-runs tx s relays e here in
      let (has, first) = sort_tx-Sorts sid tx s s' relays e run in
      let (relays', e') = pool_of s'.pool.relay_pool has in
      let (s'', run', others) = sort_txs-Sorts sid txs s' relays' e' rest in
      (
        s'',
        sort_txs-next tx txs s s' (some s'') run run',
        Sorts-then sid tx txs s s' s'' first others,
      )

  kinds_add_up :
      (txs : List Transaction)
      → length (inner txs) + length (leaving txs) + length (arrived txs) ≡ length txs
  kinds_add_up [] = refl
  kinds_add_up (tx ∷ txs) = ground (arith, kinds_add_up txs)

  -- The sorting of a body whose transactions are all at the right shard never panics. It keeps the
  -- order; every transaction is of exactly one kind: it stays, has arrived, or goes on, and then it
  -- is marked as relayed and waits for the shard of its recipient, and for no other; the
  -- transaction queue is left alone.
  pub sort_txs_lem :
      (sid : ℕ) (txs : List Transaction) (pool : TxPool)
      → All (λ tx. is_placed tx ≡ true) txs
      → (s : Sorted) × (sort_txs be bc shard_id txs (unsorted be pool) ≡ some s)
        × (s.inner_shard_txs ≡ inner txs)
        × (s.relay2_txs ≡ arrived txs)
        × (s.relay1_txs ≡ map (mark_relayed be) (leaving txs))
        × (relays_of s.pool sid ≡ map (mark_relayed be) (leaving_to sid txs))
        × (s.pool.tx_queue ≡ pool.tx_queue)
        × (length s.inner_shard_txs + length s.relay1_txs + length s.relay2_txs ≡ length txs)
  sort_txs_lem sid txs pool placed =
      let (s, run, (e1, e2, e3, e4, e5)) =
        sort_txs-Sorts sid txs (unsorted be pool) [] refl placed in
      (
        s,
        run,
        e1,
        e2,
        e3,
        e4,
        e5,
        ground (arith, e1, e2, e3, kinds_add_up txs, length-map (mark_relayed be) (leaving txs)),
      )
