-- ===== src/Supervisor/Counts.antt =====
-- The numbers of transactions that the measures keep (supervisor/measure).
use blockchain_sharding.Base.{
  ℕ, zero, suc, ◌+◌, ◌<◌, Option, none, some, List, [], ◌∷◌, ◌++◌, ◌≡◌, refl, ap, ◌∙◌, arith,
  Bool-cases, inl, inr, nat_beq, if◌then◌else◌, length, length-append, replicate,
}
use blockchain_sharding.Pbft.Messages.{BlockInfoMsg}
use blockchain_sharding.Supervisor.Measure.{
  TxKind, first_num, second_num, missing, extend, add_at, sum, block_halves,
}
use blockchain_sharding.Supervisor.Measure.TxNumCount.{
  TxNumCount, extend_epochs, count_block, update_tx_num_count, output_tx_num_count,
}

length-replicate : (n : ℕ) → length (replicate {A = ℕ} n 0) ≡ n
length-replicate zero = refl
length-replicate (suc n) = ap suc (length-replicate n)

sum-replicate : (n : ℕ) → sum (replicate n 0) ≡ 0
sum-replicate zero = refl
sum-replicate (suc n) = omega (arith, sum-replicate n)

sum-append : (xs ys : List ℕ) → sum (xs ++ ys) ≡ sum xs + sum ys
sum-append [] ys = omega arith
sum-append (x ∷ xs) ys = omega (arith, sum-append xs ys)

length-extend : (n : ℕ) (xs : List ℕ) → length (extend n 0 xs) ≡ length xs + n
unfolding extend
length-extend n xs = omega (arith, length-append xs (replicate n 0), length-replicate n)

sum-extend : (n : ℕ) (xs : List ℕ) → sum (extend n 0 xs) ≡ sum xs
unfolding extend
sum-extend n xs = omega (arith, sum-append xs (replicate n 0), sum-replicate n)

add_at-total :
    (i n : ℕ) (xs : List ℕ)
    → i < length xs
    → (ys : List ℕ) × (add_at i n xs ≡ some ys) × (length ys ≡ length xs) × (sum ys ≡ sum xs + n)
unfolding add_at
add_at-total i n [] h = absurd (omega arith)
add_at-total zero n (x ∷ xs) h = ((x + n) ∷ xs, refl, refl, omega arith)
add_at-total (suc i) n (x ∷ xs) h =
    let (ys, run, len, total) = add_at-total i n xs (omega arith) in
    (x ∷ ys, rw run refl, ap suc len, omega (arith, total))

-- An entry for each epoch.
abbrev pub HasEpochs : TxNumCount → Type 0
HasEpochs m =
    (length m.tx_num ≡ m.epochs)
    × (length m.normal_tx_num ≡ m.epochs)
    × (length m.first_tx_num ≡ m.epochs)
    × (length m.second_tx_num ≡ m.epochs)

-- A counted transaction is worth two halves, or one for each part.
abbrev pub IsBalanced : TxNumCount → Type 0
IsBalanced m =
    sum m.tx_num
    ≡ sum m.normal_tx_num + sum m.normal_tx_num + (sum m.first_tx_num + sum m.second_tx_num)

abbrev pub halves_of : TxKind → BlockInfoMsg → ℕ
halves_of kind b = if nat_beq b.block_body_length 0 then 0 else block_halves kind b

extended-HasEpochs : (n : ℕ) (m : TxNumCount) → HasEpochs m → HasEpochs (extend_epochs n m)
extended-HasEpochs n m (a, b, c, d) = (
  length-extend n m.tx_num ∙ ap (λ k. k + n) a,
  length-extend n m.normal_tx_num ∙ ap (λ k. k + n) b,
  length-extend n m.first_tx_num ∙ ap (λ k. k + n) c,
  length-extend n m.second_tx_num ∙ ap (λ k. k + n) d,
)

count_block-total :
    (kind : TxKind) (b : BlockInfoMsg) (m : TxNumCount)
    → HasEpochs m
    → b.epoch < m.epochs
    → IsBalanced m
    → (m' : TxNumCount) × (count_block kind b m ≡ some m')
      × HasEpochs m'
      × IsBalanced m'
      × (sum m'.tx_num ≡ sum m.tx_num + block_halves kind b)
count_block-total kind b m (la, ln, lf, ls) lt balanced =
    let (normal, run_n, len_n, sum_n) =
      add_at-total b.epoch (length b.inner_shard_txs) m.normal_tx_num (omega (arith, ln)) in
    let (first, run_f, len_f, sum_f) =
      add_at-total b.epoch (first_num kind b) m.first_tx_num (omega (arith, lf)) in
    let (second, run_s, len_s, sum_s) =
      add_at-total b.epoch (second_num kind b) m.second_tx_num (omega (arith, ls)) in
    let (all, run_a, len_a, sum_a) =
      add_at-total b.epoch (block_halves kind b) m.tx_num (omega (arith, la)) in
    (
      record m {
        tx_num = all;
        normal_tx_num = normal;
        first_tx_num = first;
        second_tx_num = second;
      },
      rw run_n (rw run_f (rw run_s (rw run_a refl))),
      (len_a ∙ la, len_n ∙ ln, len_f ∙ lf, len_s ∙ ls),
      omega (arith, sum_n, sum_f, sum_s, sum_a, balanced),
      sum_a,
    )

-- The measure over the block infos, oldest first.
unfoldable pub update_tx_num_counts : TxKind → List BlockInfoMsg → TxNumCount → Option TxNumCount
update_tx_num_counts kind [] m = some m
update_tx_num_counts kind (b ∷ bs) m = elim (update_tx_num_count kind b m) [
  | none ↦ none
  | some m' ↦ update_tx_num_counts kind bs m'
]

abbrev pub all_halves : TxKind → List BlockInfoMsg → ℕ
all_halves kind [] = 0
all_halves kind (b ∷ bs) = halves_of kind b + all_halves kind bs

update_tx_num_count-total :
    (kind : TxKind) (b : BlockInfoMsg) (m : TxNumCount)
    → HasEpochs m
    → IsBalanced m
    → (m' : TxNumCount) × (update_tx_num_count kind b m ≡ some m')
      × HasEpochs m'
      × IsBalanced m'
      × (sum m'.tx_num ≡ sum m.tx_num + halves_of kind b)
unfolding update_tx_num_count
update_tx_num_count-total kind b m sizes balanced =
    elim (Bool-cases (nat_beq b.block_body_length 0)) [
      | inl e ↦ (m, rw e refl, sizes, balanced, ground (arith, e))
      | inr e ↦
          let n = missing b.epoch m.epochs in
          let (m', run, sizes', balanced', total) =
            count_block-total kind b (extend_epochs n m) (extended-HasEpochs n m sizes)
              (omega arith)
              (omega (
                arith,
                balanced,
                sum-extend n m.tx_num,
                sum-extend n m.normal_tx_num,
                sum-extend n m.first_tx_num,
                sum-extend n m.second_tx_num,
              )) in
          (m', rw e run, sizes', balanced', ground (arith, e, total, sum-extend n m.tx_num))
    ]

-- From a measure that has an entry for each epoch and counts two halves for a transaction inside a
-- shard and one for each part of one across shards: whatever blocks come, with whatever epochs in
-- whatever order, none panics, the measure stays like this, and the total that it puts out has
-- grown by the halves of the transactions of these blocks, those that say that they have no body
-- aside.
pub update_tx_num_counts-total :
    (kind : TxKind) (bs : List BlockInfoMsg) (m : TxNumCount)
    → HasEpochs m
    → IsBalanced m
    → (m' : TxNumCount) × (update_tx_num_counts kind bs m ≡ some m')
      × HasEpochs m'
      × IsBalanced m'
      × ((output_tx_num_count m').1 ≡ (output_tx_num_count m).1 + all_halves kind bs)
unfolding update_tx_num_counts output_tx_num_count
update_tx_num_counts-total kind [] m sizes balanced = (m, refl, sizes, balanced, omega arith)
update_tx_num_counts-total kind (b ∷ bs) m sizes balanced =
    let (m', run, sizes', balanced', total) = update_tx_num_count-total kind b m sizes balanced in
    let (m'', rest, sizes'', balanced'', total') =
      update_tx_num_counts-total kind bs m' sizes' balanced' in
    (m'', rw (run, update_tx_num_counts) rest, sizes'', balanced'', omega (arith, total, total'))
