-- ===== src/Supervisor/Measure.antt =====
-- supervisor/measure: the counts that the measures keep, one entry for each epoch. The numbers of
-- transactions that are `float64` are multiples of a half and exact; they are kept in halves. An
-- epoch of the source is one less than the number of its entries, which starts at -1. `none` is an
-- index out of range.
pub mod TxNumCount
pub mod CrossTxRate
pub mod AvgTps
use blockchain_sharding.Base.{
  ℕ, zero, suc, ◌+◌, ◌-◌, Bool, true, false, Option, none, some, List, [], ◌∷◌, ◌++◌, replicate,
  length,
}
use blockchain_sharding.Pbft.Messages.{BlockInfoMsg}

-- The measures of the relay mode and those of the broker mode count different transactions.
pub data TxKind : Type 0 where
  relay broker : TxKind

abbrev pub first_num : TxKind → BlockInfoMsg → ℕ
first_num relay b = length b.relay1_txs
first_num broker b = length b.broker1_txs

abbrev pub second_num : TxKind → BlockInfoMsg → ℕ
second_num relay b = length b.relay2_txs
second_num broker b = length b.broker2_txs

-- The rounds of `for epochID < epochid`, each of which appends an entry to every list.
abbrev pub missing : ℕ → ℕ → ℕ
missing epoch epochs = suc epoch - epochs

unfoldable pub extend {ℓ} : {A : Type ℓ} → ℕ → A → List A → List A
extend rounds x xs = xs ++ replicate rounds x

-- `s[i] += n`
unfoldable pub add_at : ℕ → ℕ → List ℕ → Option (List ℕ)
add_at i n [] = none
add_at zero n (x ∷ xs) = some ((x + n) ∷ xs)
add_at (suc i) n (x ∷ xs) = elim (add_at i n xs) [ none ↦ none | some rest ↦ some (x ∷ rest) ]

abbrev pub sum : List ℕ → ℕ
sum [] = 0
sum (x ∷ xs) = x + sum xs

-- Two halves for a transaction inside a shard, and one for each part of one across shards.
abbrev pub block_halves : TxKind → BlockInfoMsg → ℕ
block_halves kind b =
    length b.inner_shard_txs + length b.inner_shard_txs + (first_num kind b + second_num kind b)
