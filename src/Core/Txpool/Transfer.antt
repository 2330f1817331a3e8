-- ===== src/Core/Txpool/Transfer.antt =====
-- Re-sharding: `TransferTxs` takes the transactions of one sender out of the whole pool.
use blockchain_sharding.Base.{
  ℕ, ◌+◌, ◌≡◌, refl, inl, inr, Bool, true, false, Option, none, some, List, [], ◌∷◌, ◌++◌, Dict,
  lookup, lookup_or, insert, contains, if◌then◌else◌, arith, count, count-append, nat_eq, nat_beq,
  Bytes, bytes_eq, bytes_beq, All, All-append, Bool-cases, lookup-insert_self,
}
use blockchain_sharding.Core.Transaction.{Transaction}
use blockchain_sharding.Core.Txpool.{
  TxPool, split_sender, split_pool, split_pools, transfer_txs, append_at, entries,
}

-- All transactions of the pools, for a test.
abbrev count_pools : (Transaction → Bool) → Dict ℕ (List Transaction) → ℕ
count_pools p [] = 0
count_pools p ((k, txs) ∷ m) = count p txs + count_pools p m

count_pools-insert_found :
    (p : Transaction → Bool) (k : ℕ) (new old : List Transaction) (m : Dict ℕ (List Transaction))
    → lookup k m ≡ some old
    → count_pools p (insert k new m) + count p old ≡ count_pools p m + count p new
count_pools-insert_found p k new old [] e = cc
count_pools-insert_found p k new old ((j, txs) ∷ m) e =
    ground (arith, count_pools-insert_found p k new old m)

count_pools-insert_new :
    (p : Transaction → Bool) (k : ℕ) (new : List Transaction) (m : Dict ℕ (List Transaction))
    → lookup k m ≡ none
    → count_pools p (insert k new m) ≡ count_pools p m + count p new
count_pools-insert_new p k new [] e = omega arith
count_pools-insert_new p k new ((j, txs) ∷ m) e = ground (arith, count_pools-insert_new p k new m)

count_pools-append_at :
    (p : Transaction → Bool) (k : ℕ) (tx : Transaction) (m : Dict ℕ (List Transaction))
    → count_pools p (append_at k tx m) ≡ count_pools p m + count p (tx ∷ [])
count_pools-append_at p k tx m = go (lookup k m) refl
  where
    go :
        (found : Option (List Transaction))
        → lookup k m ≡ found
        → count_pools p (append_at k tx m) ≡ count_pools p m + count p (tx ∷ [])
    go none e = ground (
      arith,
      e,
      lookup-insert_self k [] m,
      count_pools-insert_found p k (tx ∷ []) [] (insert k [] m) (lookup-insert_self k [] m),
      count_pools-insert_new p k [] m e,
    )
    go (some old) e = ground (
      arith,
      e,
      count_pools-insert_found p k (old ++ tx ∷ []) old m e,
      count-append p old (tx ∷ []),
    )

split_sender-count :
    (p : Transaction → Bool) (addr : Bytes) (out rest txs : List Transaction)
    → let (out', rest') = split_sender addr out rest txs in
      count p out' + count p rest' ≡ count p out + count p rest + count p txs
unfolding split_sender
split_sender-count p addr out rest [] = omega arith
split_sender-count p addr out rest (tx ∷ txs) = ground (
  arith,
  split_sender-count p addr (out ++ tx ∷ []) rest txs,
  split_sender-count p addr out (rest ++ tx ∷ []) txs,
  count-append p out (tx ∷ []),
  count-append p rest (tx ∷ []),
)

split_pool-count :
    (p : Transaction → Bool) (addr : Bytes) (k : ℕ) (out : List Transaction)
    (m : Dict ℕ (List Transaction)) (txs : List Transaction)
    → let (out', m') = split_pool addr k (out, m) txs in
      count p out' + count_pools p m' ≡ count p out + count_pools p m + count p txs
unfolding split_pool
split_pool-count p addr k out m [] = omega arith
split_pool-count p addr k out m (tx ∷ txs) = elim (Bool-cases (bytes_beq tx.sender addr)) [
  | inl e ↦ rw e (
      omega (arith, split_pool-count p addr k (out ++ tx ∷ []) m txs, count-append p out (tx ∷ [])))
  | inr e ↦ rw e (
      omega (
        arith,
        split_pool-count p addr k out (append_at k tx m) txs,
        count_pools-append_at p k tx m,
      ))
]

split_pools-count :
    (p : Transaction → Bool) (addr : Bytes) (out : List Transaction)
    (m pools : Dict ℕ (List Transaction))
    → let (out', m') = split_pools addr (out, m) pools in
      count p out' + count_pools p m' ≡ count p out + count_pools p m + count_pools p pools
unfolding split_pools
split_pools-count p addr out m [] = omega arith
split_pools-count p addr out m ((k, txs) ∷ pools) =
    let (out', m') = split_pool addr k (out, m) txs in
    omega (arith, split_pool-count p addr k out m txs, split_pools-count p addr out' m' pools)

-- `TransferTxs` loses and makes up no transaction: for every test, as many pass it among those that
-- are handed out and those that stay, in the queue and the relay pools, as did before.
transfer_txs-count :
    (p : Transaction → Bool) (pool : TxPool) (addr : Bytes)
    → let (pool', transferred) = transfer_txs pool addr in
      count p transferred + count p pool'.tx_queue + count_pools p (entries pool'.relay_pool)
      ≡ count p pool.tx_queue + count_pools p (entries pool.relay_pool)
unfolding transfer_txs
transfer_txs-count p pool addr =
    let (out, queue) = split_sender addr [] [] pool.tx_queue in
    omega (
      arith,
      split_sender-count p addr [] [] pool.tx_queue,
      split_pools-count p addr out [] (entries pool.relay_pool),
    )

-- The sender of a transaction that left, and of one that stayed.
abbrev FromSender : Bytes → Bool → Transaction → Type 0
FromSender addr b tx = bytes_beq tx.sender addr ≡ b

abbrev AllPools {κ} : (Transaction → Type κ) → Dict ℕ (List Transaction) → Type κ
AllPools P [] = Unit
AllPools P ((k, txs) ∷ m) = All P txs × AllPools P m

AllPools-insert :
    (P : Transaction → Type 0) (k : ℕ) (txs : List Transaction) (m : Dict ℕ (List Transaction))
    → All P txs
    → AllPools P m
    → AllPools P (insert k txs m)
AllPools-insert P k txs [] h hm = (h, tt)
AllPools-insert P k txs ((j, old) ∷ m) h hm = elim (Bool-cases (nat_beq j k)) [
  | inl e ↦ rw e (h, hm.1)
  | inr e ↦ rw e (hm.0, AllPools-insert P k txs m h hm.1)
]

All-lookup_or :
    (P : Transaction → Type 0) (k : ℕ) (m : Dict ℕ (List Transaction))
    → AllPools P m
    → All P (lookup_or k [] m)
All-lookup_or P k [] h = tt
All-lookup_or P k ((j, txs) ∷ m) h = elim (Bool-cases (nat_beq j k)) [
  | inl e ↦ rw e h.0
  | inr e ↦ rw e (All-lookup_or P k m h.1)
]

AllPools-append_at :
    (P : Transaction → Type 0) (k : ℕ) (tx : Transaction) (m : Dict ℕ (List Transaction))
    → P tx
    → AllPools P m
    → AllPools P (append_at k tx m)
AllPools-append_at P k tx m h hm =
    AllPools-insert P k (lookup_or k [] m' ++ tx ∷ []) m'
      (All-append P (lookup_or k [] m') (tx ∷ []) (All-lookup_or P k m' hm') (h, tt)) hm'
  where
    m' : Dict ℕ (List Transaction)
    m' = if contains k m then m else insert k [] m

    hm' : AllPools P m'
    hm' = elim (Bool-cases (contains k m)) [
      | inl e ↦ rw e hm
      | inr e ↦ rw e (AllPools-insert P k [] m tt hm)
    ]

All-moved :
    (P : Transaction → Type 0) (b : Bool) (tx : Transaction) (xs : List Transaction)
    → (b ≡ true → P tx)
    → All P xs
    → All P (if b then xs ++ tx ∷ [] else xs)
All-moved P true tx xs h hx = All-append P xs (tx ∷ []) hx (h refl, tt)
All-moved P false tx xs h hx = hx

All-stayed :
    (P : Transaction → Type 0) (b : Bool) (tx : Transaction) (xs : List Transaction)
    → (b ≡ false → P tx)
    → All P xs
    → All P (if b then xs else xs ++ tx ∷ [])
All-stayed P true tx xs h hx = hx
All-stayed P false tx xs h hx = All-append P xs (tx ∷ []) hx (h refl, tt)

split_sender-All :
    (addr : Bytes) (out rest txs : List Transaction)
    → All (FromSender addr true) out
    → All (FromSender addr false) rest
    → let (out', rest') = split_sender addr out rest txs in
      All (FromSender addr true) out' × All (FromSender addr false) rest'
unfolding split_sender
split_sender-All addr out rest [] ho hr = (ho, hr)
split_sender-All addr out rest (tx ∷ txs) ho hr =
    let b = bytes_beq tx.sender addr in
    split_sender-All addr (if b then out ++ tx ∷ [] else out) (if b then rest else rest ++ tx ∷ [])
      txs (All-moved (FromSender addr true) b tx out (λ e. e) ho)
      (All-stayed (FromSender addr false) b tx rest (λ e. e) hr)

split_pool-All :
    (addr : Bytes) (k : ℕ) (out : List Transaction) (m : Dict ℕ (List Transaction))
    (txs : List Transaction)
    → All (FromSender addr true) out
    → AllPools (FromSender addr false) m
    → let (out', m') = split_pool addr k (out, m) txs in
      All (FromSender addr true) out' × AllPools (FromSender addr false) m'
unfolding split_pool
split_pool-All addr k out m [] ho hm = (ho, hm)
split_pool-All addr k out m (tx ∷ txs) ho hm =
    let b = bytes_beq tx.sender addr in
    split_pool-All addr k (if b then out ++ tx ∷ [] else out) (if b then m else append_at k tx m)
      txs (All-moved (FromSender addr true) b tx out (λ e. e) ho) (stay b refl)
  where
    stay :
        (b : Bool)
        → bytes_beq tx.sender addr ≡ b
        → AllPools (FromSender addr false) (if b then m else append_at k tx m)
    stay true e = hm
    stay false e = AllPools-append_at (FromSender addr false) k tx m e hm

split_pools-All :
    (addr : Bytes) (out : List Transaction) (m pools : Dict ℕ (List Transaction))
    → All (FromSender addr true) out
    → AllPools (FromSender addr false) m
    → let (out', m') = split_pools addr (out, m) pools in
      All (FromSender addr true) out' × AllPools (FromSender addr false) m'
unfolding split_pools
split_pools-All addr out m [] ho hm = (ho, hm)
split_pools-All addr out m ((k, txs) ∷ pools) ho hm =
    let h = split_pool-All addr k out m txs ho hm in
    let (out', m') = split_pool addr k (out, m) txs in split_pools-All addr out' m' pools h.0 h.1

-- Every transaction that `TransferTxs` hands out was sent from the address, and no transaction that
-- stays, in the queue or in a relay pool, was.
transfer_txs-FromSender :
    (pool : TxPool) (addr : Bytes)
    → let (pool', transferred) = transfer_txs pool addr in
      All (FromSender addr true) transferred
      × All (FromSender addr false) pool'.tx_queue
      × AllPools (FromSender addr false) (entries pool'.relay_pool)
unfolding transfer_txs
transfer_txs-FromSender pool addr =
    let (out, queue) = split_sender addr [] [] pool.tx_queue in
    let first = split_sender-All addr [] [] pool.tx_queue tt tt in
    let second = split_pools-All addr out [] (entries pool.relay_pool) first.0 tt in
    (second.0, first.1, second.1)
