-- ===== src/Tests/Measures.antt =====
-- Block infos of two epochs.
use blockchain_sharding.Base.{
  All, suc, keep, arith, ℕ, ◌+◌, ◌≡◌, ◌↔◌, refl, true, false, some, Option, List, [], ◌∷◌, pos,
}
use blockchain_sharding.Pbft.Messages.{BlockInfoMsg}
use blockchain_sharding.Supervisor.Signal.{new_stop_signal, gap_enough}
use blockchain_sharding.Supervisor.Stops.{check_stops, EndsEmpty, check_stops-gap_enough}
use blockchain_sharding.Supervisor.Measure.{relay}
use blockchain_sharding.Supervisor.Measure.TxNumCount.{
  TxNumCount, new_tx_num_count, output_tx_num_count,
}
use blockchain_sharding.Supervisor.Counts.{
  HasEpochs, IsBalanced, update_tx_num_counts, all_halves, update_tx_num_counts-total,
}
use blockchain_sharding.Supervisor.Committee.Reports.{all_report}
use blockchain_sharding.Supervisor.Committee.Advance.{
  epochs_to, record_epoch_acks, record_epoch_acks-all_report,
}
use blockchain_sharding.Supervisor.Committee.Sending.{InjectTxs, tx_sending}
use blockchain_sharding.Supervisor.Committee.Delivered.{got, goes_to, tx_sending-got}
use blockchain_sharding.Core.Transaction.{Transaction}
use blockchain_sharding.Utils.{addr_to_shard, parse_hex, hex_digit}
use blockchain_sharding.Tests.World.{alice, bob, carol, pay}

abbrev info : ℕ → ℕ → BlockInfoMsg
info epoch size = record {
  block_body_length = size;
  inner_shard_txs = pay alice carol (pos 3) ∷ [];
  epoch = epoch;
  propose_time = 4;
  commit_time = 5;
  sender_shard_id = 0;
  relay1_txs = pay alice bob (pos 4) ∷ [];
  relay2_txs = [];
  broker1_txs = [];
  broker2_txs = [];
}

abbrev infos : List BlockInfoMsg
infos = info 2 2 ∷ info 0 2 ∷ info 1 0 ∷ []

check_stops-gap_enough_example :
    (gap_enough (check_stops infos (new_stop_signal 1)) ≡ true) ↔ EndsEmpty 1 infos
check_stops-gap_enough_example = check_stops-gap_enough 1 infos

update_tx_num_counts-total_example :
    (m' : TxNumCount) × (update_tx_num_counts relay infos new_tx_num_count ≡ some m')
    × HasEpochs m'
    × IsBalanced m'
    × ((output_tx_num_count m').1
        ≡ (output_tx_num_count new_tx_num_count).1 + all_halves relay infos)
unfolding new_tx_num_count
update_tx_num_counts-total_example =
    update_tx_num_counts-total relay infos new_tx_num_count (refl, refl, refl, refl) refl

-- Shard 1 is ahead of shard 0 at first, and repeats itself.
abbrev reports : List (ℕ × ℕ)
reports = (0, 3) ∷ (0, 1) ∷ (0, 2) ∷ (1, 1) ∷ (1, 2) ∷ (1, 1) ∷ []

record_epoch_acks-all_report_example :
    All (λ e. all_report 2 reports e ≡ true) (epochs_to (record_epoch_acks 2 reports).cur_epoch)
    × (all_report 2 reports (suc (record_epoch_acks 2 reports).cur_epoch) ≡ false)
record_epoch_acks-all_report_example = record_epoch_acks-all_report 2 reports

abbrev batch : List Transaction
batch = pay alice bob (pos 3) ∷ pay bob alice (pos 4) ∷ pay carol bob (pos 5) ∷ []

abbrev by_sender : Transaction → Option ℕ
by_sender tx = addr_to_shard 2 tx.sender

tx_sending-got_example :
    (sent : List InjectTxs) × (tx_sending 2 2 by_sender batch ≡ some sent)
    × (got 0 sent ≡ keep (goes_to by_sender 0) batch)
unfolding addr_to_shard parse_hex hex_digit pay
tx_sending-got_example =
    tx_sending-got 2 2 by_sender 0 batch (omega arith) (omega arith)
      ((0, refl), ((1, refl), ((0, refl), tt)))
