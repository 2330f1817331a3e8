-- ===== src/Supervisor/Committee/Relay.antt =====
-- committee_relay.go: transactions from the rows of a file, sent batch by batch. `parse` is
-- `big.Int.SetString` in base ten, and `at` the time at which each transaction is made.
use blockchain_sharding.Base.{
  ℕ, ◌+◌, Bool, false, not, ◌&&◌, ◌||◌, Option, none, some, List, [], ◌∷◌, ◌++◌, Bytes, ℤ, nat_beq,
  ltb, bytes_beq, if◌then◌else◌, length, drop, get_elem?, ◌>>=◌,
}
use blockchain_sharding.Core.Transaction.{Transaction, new_transaction}
use blockchain_sharding.Message.{codes}
use blockchain_sharding.Supervisor.Signal.{StopSignal, stop_gap_reset}
use blockchain_sharding.Supervisor.Committee.Sending.{InjectTxs, tx_sending}

pub record RelayCommittee : Type 0 where
  pub data_total_num : ℕ
  pub now_data_num : ℕ
  pub batch_data_num : ℕ
  pub ss : StopSignal

-- A row with a missing column panics.
abbrev pub is_payment : List Bytes → Option Bool
is_payment row = do
  sixth ← get_elem? row 6
  if not (bytes_beq sixth (codes "0")) then some false else (do
    seventh ← get_elem? row 7
    sender ← get_elem? row 3
    recipient ← get_elem? row 4
    some (
        bytes_beq seventh (codes "0")
        && ltb 16 (length sender)
        && ltb 16 (length recipient)
        && not (bytes_beq sender recipient)))

module _ (digest : Transaction → Bytes) (parse : Bytes → Option ℤ) where
  -- `some none` is a row that is no payment between two accounts.
  unfoldable pub data2tx : List Bytes → ℕ → ℕ → Option (Option Transaction)
  unfolding new_transaction
  data2tx row nonce now = do
    legal ← is_payment row
    if not legal then some none else (do
      sender ← get_elem? row 3
      recipient ← get_elem? row 4
      value ← get_elem? row 8
      val ← parse value
      some (some (new_transaction digest (drop 2 sender) (drop 2 recipient) val nonce now)))

  module _ (shard_num : ℕ) (speed : ℕ) (sender_shard : Bytes → Option ℕ) (at : ℕ → ℕ) where
    -- The transactions of the batch with that of a row, if it has one.
    unfoldable pub take_row :
        List Bytes → List Transaction × RelayCommittee → Option (List Transaction × RelayCommittee)
    unfolding data2tx
    take_row row (txlist, c) = elim (data2tx row c.now_data_num (at c.now_data_num)) [
      | none ↦ none
      | some none ↦ some (txlist, c)
      | some (some tx) ↦ some (txlist ++ tx ∷ [], record c { now_data_num = c.now_data_num + 1 })
    ]

    abbrev pub is_enough_to_send : List Transaction → RelayCommittee → Bool
    is_enough_to_send txlist c =
        nat_beq (length txlist) c.batch_data_num || nat_beq c.now_data_num c.data_total_num

    -- A batch that is complete, or the last one.
    unfoldable pub send_batch :
        List Transaction × RelayCommittee
        → Option (List Transaction × RelayCommittee × List InjectTxs)
    send_batch (txlist, c) =
        if is_enough_to_send txlist c
        then (do
          sent ← tx_sending shard_num speed (λ tx. sender_shard tx.sender) txlist
          some ([], record c { ss = stop_gap_reset c.ss }, sent))
        else some (txlist, c, [])

    -- The rows of the file, and the batch so far. What is left of a batch at the end of the file is
    -- not sent.
    unfoldable pub msg_sending_control :
        List (List Bytes)
        → List Transaction
        → RelayCommittee
        → Option (RelayCommittee × List InjectTxs)
    unfolding take_row send_batch
    msg_sending_control [] txlist c = some (c, [])
    msg_sending_control (row ∷ rows) txlist c = elim (take_row row (txlist, c)) [
      | none ↦ none
      | some taken ↦ elim (send_batch taken) [
        | none ↦ none
        | some (txlist', c', sent) ↦
            let rest = msg_sending_control rows txlist' c' in
            if nat_beq c'.now_data_num c'.data_total_num
            then some (c', sent)
            else elim rest [ none ↦ none | some (c'', more) ↦ some (c'', sent ++ more) ]
      ]
    ]
