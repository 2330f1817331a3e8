-- ===== src/Supervisor/Committee/Sending.antt =====
-- txSending of the four committees: batches of transactions to the leaders. They differ in the
-- shard that a transaction goes to, which is an argument; `none` is a panic.
use blockchain_sharding.Base.{
  ℕ, zero, suc, ◌%◌, Bool, true, false, not, ◌&&◌, ◌||◌, Option, none, some, List, [], ◌∷◌, ◌++◌,
  Dict, lookup_or, insert, nat_beq, ltb, if◌then◌else◌, nat_eq,
}
use blockchain_sharding.Core.Transaction.{Transaction}

pub record InjectTxs : Type 0 where
  pub txs : List Transaction
  pub to_shard_id : ℕ

-- One message to each shard, also where there is nothing to send.
unfoldable pub send_to_all : ℕ → Dict ℕ (List Transaction) → List InjectTxs
send_to_all zero pending = []
send_to_all (suc sid) pending =
    send_to_all sid pending ++ record { txs = lookup_or sid [] pending; to_shard_id = sid } ∷ []

abbrev pub put_in : ℕ → Transaction → Dict ℕ (List Transaction) → Dict ℕ (List Transaction)
put_in sid tx pending = insert sid (lookup_or sid [] pending ++ tx ∷ []) pending

abbrev pub is_last : List Transaction → Bool
is_last [] = true
is_last (tx ∷ txs) = false

-- `idx > 0 && (idx%params.InjectSpeed == 0 || idx == len(txlist))`
abbrev pub is_time : ℕ → ℕ → List Transaction → Bool
is_time speed idx left = ltb 0 idx && (nat_beq (idx % speed) 0 || is_last left)

module _ (shard_num : ℕ) (speed : ℕ) (tx_shard : Transaction → Option ℕ) where
  -- The loop from the index `idx` on, with the transactions that are left.
  unfoldable pub send_from :
      ℕ → List Transaction → Dict ℕ (List Transaction) → Option (List InjectTxs)
  unfolding send_to_all
  send_from idx [] pending =
      some (if is_time speed idx [] then send_to_all shard_num pending else [])
  send_from idx (tx ∷ txs) pending =
      let now = is_time speed idx (tx ∷ txs) in
      let kept : Dict ℕ (List Transaction) = if now then [] else pending in
      elim (tx_shard tx) [
        | none ↦ none
        | some sid ↦ elim (send_from (suc idx) txs (put_in sid tx kept)) [
          | none ↦ none
          | some rest ↦ some ((if now then send_to_all shard_num pending else []) ++ rest)
        ]
      ]

  -- Without a speed, the remainder panics at the second index.
  unfoldable pub tx_sending : List Transaction → Option (List InjectTxs)
  unfolding send_from
  tx_sending txs = if nat_beq speed 0 && not (is_last txs) then none else send_from 0 txs []
