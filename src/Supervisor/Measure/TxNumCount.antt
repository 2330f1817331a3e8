-- ===== src/Supervisor/Measure/TxNumCount.antt =====
-- measure_TxNumCount_Relay.go and measure_TxNumCount_Broker.go: the numbers of transactions. The
-- .csv files are not modelled.
use blockchain_sharding.Base.{ℕ, ◌+◌, Option, some, List, [], nat_beq, if◌then◌else◌, ◌>>=◌, length}
use blockchain_sharding.Pbft.Messages.{BlockInfoMsg}
use blockchain_sharding.Supervisor.Measure.{
  TxKind, relay, broker, first_num, second_num, missing, extend, add_at, sum, block_halves,
}

-- `epochs` is `epochID + 1`; the counts of the relay mode, or of the broker mode.
pub record TxNumCount : Type 0 where
  pub epochs : ℕ
  pub tx_num : List ℕ
  pub normal_tx_num : List ℕ
  pub first_tx_num : List ℕ
  pub second_tx_num : List ℕ

unfoldable pub new_tx_num_count : TxNumCount
new_tx_num_count = record {
  epochs = 0;
  tx_num = [];
  normal_tx_num = [];
  first_tx_num = [];
  second_tx_num = [];
}

abbrev pub extend_epochs : ℕ → TxNumCount → TxNumCount
extend_epochs needed m = record {
  epochs = m.epochs + needed;
  tx_num = extend needed 0 m.tx_num;
  normal_tx_num = extend needed 0 m.normal_tx_num;
  first_tx_num = extend needed 0 m.first_tx_num;
  second_tx_num = extend needed 0 m.second_tx_num;
}

abbrev pub count_block : TxKind → BlockInfoMsg → TxNumCount → Option TxNumCount
count_block kind b m = do
  normal ← add_at b.epoch (length b.inner_shard_txs) m.normal_tx_num
  first ← add_at b.epoch (first_num kind b) m.first_tx_num
  second ← add_at b.epoch (second_num kind b) m.second_tx_num
  all ← add_at b.epoch (block_halves kind b) m.tx_num
  some (record m {
    tx_num = all;
    normal_tx_num = normal;
    first_tx_num = first;
    second_tx_num = second;
  })

unfoldable pub update_tx_num_count : TxKind → BlockInfoMsg → TxNumCount → Option TxNumCount
unfolding extend add_at
update_tx_num_count kind b m =
    if nat_beq b.block_body_length 0
    then some m
    else count_block kind b (extend_epochs (missing b.epoch m.epochs) m)

-- `OutputRecord`: the numbers of each epoch, and their sum.
unfoldable pub output_tx_num_count : TxNumCount → List ℕ × ℕ
output_tx_num_count m = (m.tx_num, sum m.tx_num)

unfoldable pub update_relay_count : BlockInfoMsg → TxNumCount → Option TxNumCount
update_relay_count = update_tx_num_count relay

unfoldable pub update_broker_count : BlockInfoMsg → TxNumCount → Option TxNumCount
update_broker_count = update_tx_num_count broker
