-- ===== src/Core/Txpool/Packing.antt =====
-- Packing transactions, and adding them (core/txpool.go).
use blockchain_sharding.Base.{
  ℕ, ◌+◌, ◌*◌, ◌≤◌, ◌<◌, ◌≡◌, refl, sym, ◌⊎◌, inl, inr, List, [], ◌∷◌, ◌++◌, length, take, drop,
  ltb, if◌then◌else◌, arith, min, take-append-drop, length-take, length-drop, Bool-cases, ltb→lt,
  nat_eq, append_assoc, append-nil,
}
use blockchain_sharding.Core.Transaction.{Transaction}
use blockchain_sharding.Core.Txpool.{
  TxPool, stamp, append_stamped, add_txs_to_pool, pack_txs, pack_txs_with_bytes, bytes_cut,
}

-- Packing by number hands out the first transactions of the queue, in order and as many as the
-- bound allows, leaves the others in order, and does not touch the relay pools.
pub pack_txs_lem :
    (pool : TxPool) (max_txs : ℕ)
    → let (pool', packed) = pack_txs pool max_txs in
      (packed ++ pool'.tx_queue ≡ pool.tx_queue)
      × (length packed ≡ min max_txs (length pool.tx_queue))
      × (pool'.relay_pool ≡ pool.relay_pool)
unfolding pack_txs
pack_txs_lem pool max_txs = (take-append-drop n queue, ground (arith, length-take n queue), refl)
  where
    open pool use {tx_queue as queue}

    n : ℕ
    n = if ltb (length queue) max_txs then length queue else max_txs

-- The cut is where the size first exceeds the bound, or the end.
abbrev pub IsCut : ℕ → ℕ → ℕ → ℕ → Type 0
IsCut size max_bytes total n =
    (n ≤ total) × (n * size ≤ max_bytes) × ((n ≡ total) ⊎ (max_bytes < (n + 1) * size))

bytes_cut-IsCut :
    (size max_bytes k total current : ℕ) (txs : List Transaction)
    → total ≡ k + length txs
    → current ≡ k * size
    → current ≤ max_bytes
    → IsCut size max_bytes total (bytes_cut size max_bytes total k current txs)
unfolding bytes_cut
bytes_cut-IsCut size max_bytes k total current [] e c h =
    (omega arith, rw (sym same) (rw (sym c) h), inl refl)
  where
    same : k ≡ total
    same = omega arith
bytes_cut-IsCut size max_bytes k total current (tx ∷ txs) e c h =
    elim (Bool-cases (ltb max_bytes (current + size))) [
      | inl over ↦
          rw over
            (omega arith, rw (sym c) h, inr (omega (arith, ltb→lt max_bytes (current + size) over)))
      | inr fits ↦ rw fits (
          bytes_cut-IsCut size max_bytes (k + 1) total (current + size) txs (omega arith)
            (omega arith) (ground arith))
    ]

eq_nil_of_length {ℓ} : {A : Type ℓ} (xs : List A) → length xs ≡ 0 → xs ≡ []
eq_nil_of_length [] h = refl
eq_nil_of_length (x ∷ xs) h = absurd (omega arith)

-- Packing by bytes hands out the longest prefix of the queue whose total size, at the one constant
-- size per transaction, is within the bound; the rest stays in order.
pub pack_txs_with_bytes_lem :
    (size max_bytes : ℕ) (pool : TxPool)
    → let (pool', packed) = pack_txs_with_bytes size pool max_bytes in
      (packed ++ pool'.tx_queue ≡ pool.tx_queue)
      × (length packed * size ≤ max_bytes)
      × ((pool'.tx_queue ≡ []) ⊎ (max_bytes < (length packed + 1) * size))
      × (pool'.relay_pool ≡ pool.relay_pool)
unfolding pack_txs_with_bytes
pack_txs_with_bytes_lem size max_bytes pool =
    (take-append-drop n queue, rw same cut.1, finish cut.2, refl)
  where
    open pool use {tx_queue as queue}

    n : ℕ
    n = bytes_cut size max_bytes (length queue) 0 0 queue

    cut : IsCut size max_bytes (length queue) n
    cut =
        bytes_cut-IsCut size max_bytes 0 (length queue) 0 queue (omega arith) (omega arith)
          (omega arith)

    same : length (take n queue) ≡ n
    same = omega (arith, length-take n queue, cut.0)

    finish :
        ((n ≡ length queue) ⊎ (max_bytes < (n + 1) * size))
        → (drop n queue ≡ []) ⊎ (max_bytes < (length (take n queue) + 1) * size)
    finish (inl e) = inl (eq_nil_of_length (drop n queue) (omega (arith, length-drop n queue)))
    finish (inr h) = inr (rw same h)

-- `AddTxs2Pool` puts the transactions behind the queue in their order, each with its own time or,
-- where that is the zero time, with what the clock showed.
append_stamped_lem :
    (now : ℕ → ℕ) (i : ℕ) (queue txs : List Transaction)
    → append_stamped now i queue txs ≡ queue ++ append_stamped now i [] txs
unfolding append_stamped
append_stamped_lem now i queue [] = sym (append-nil queue)
append_stamped_lem now i queue (tx ∷ txs) =
    rw
      (
        append_stamped_lem now (i + 1) (queue ++ stamp (now i) tx ∷ []) txs,
        append_stamped_lem now (i + 1) (stamp (now i) tx ∷ []) txs,
      )
      (append_assoc queue (stamp (now i) tx ∷ []) _)

abbrev pub IsStamped : Transaction → Transaction → Type 0
IsStamped tx tx' =
    (tx' ≡ record tx { time = tx'.time }) × (0 < tx'.time) × ((tx.time ≡ 0) ⊎ (tx' ≡ tx))

abbrev pub AllStamped : List Transaction → List Transaction → Type 0
AllStamped [] [] = Unit
AllStamped [] (y ∷ ys) = ⊥
AllStamped (x ∷ xs) [] = ⊥
AllStamped (x ∷ xs) (y ∷ ys) = IsStamped x y × AllStamped xs ys

append_stamped-AllStamped :
    (now : ℕ → ℕ) (i : ℕ) (txs : List Transaction)
    → ((j : ℕ) → 0 < now j)
    → AllStamped txs (append_stamped now i [] txs)
unfolding append_stamped
append_stamped-AllStamped now i [] h = tt
append_stamped-AllStamped now i (tx ∷ txs) h =
    rw (append_stamped_lem now (i + 1) (stamp (now i) tx ∷ []) txs)
      (ground (arith, h i), append_stamped-AllStamped now (i + 1) txs h)

-- Adding transactions while the clock runs keeps the queue as a prefix and appends all of them in
-- order, each unchanged but for a zero time, which is set to a time that is not zero; the relay
-- pools stay as they are.
add_txs_to_pool_lem :
    (now : ℕ → ℕ) (pool : TxPool) (txs : List Transaction)
    → ((j : ℕ) → 0 < now j)
    → let pool' = add_txs_to_pool now pool txs in
      (added : List Transaction) × (pool'.tx_queue ≡ pool.tx_queue ++ added)
      × AllStamped txs added
      × (pool'.relay_pool ≡ pool.relay_pool)
unfolding add_txs_to_pool
add_txs_to_pool_lem now pool txs h = (
  append_stamped now 0 [] txs,
  append_stamped_lem now 0 pool.tx_queue txs,
  append_stamped-AllStamped now 0 txs h,
  refl,
)
