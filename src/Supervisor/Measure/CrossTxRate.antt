-- ===== src/Supervisor/Measure/CrossTxRate.antt =====
-- measure_CrossTxRate_Relay.go: the share of the transactions across shards. Both terms of a ratio
-- are kept in halves, which leaves the ratio as it is.
use blockchain_sharding.Base.{
  ℕ, ◌+◌, Option, some, List, [], ◌∷◌, ◌++◌, nat_beq, if◌then◌else◌, ◌>>=◌, length, pos,
}
use blockchain_sharding.Pbft.Messages.{BlockInfoMsg}
use blockchain_sharding.Partition.State.{Floats}
use blockchain_sharding.Supervisor.Measure.{relay, missing, extend, add_at, sum, block_halves}

pub record CrossTxRate : Type 0 where
  pub epochs : ℕ
  pub normal_tx_num : List ℕ
  pub relay1_tx_num : List ℕ
  pub relay2_tx_num : List ℕ
  pub tot_tx_num : List ℕ
  pub tot_cross_tx_num : List ℕ

unfoldable pub new_cross_tx_rate : CrossTxRate
new_cross_tx_rate = record {
  epochs = 0;
  normal_tx_num = [];
  relay1_tx_num = [];
  relay2_tx_num = [];
  tot_tx_num = [];
  tot_cross_tx_num = [];
}

unfoldable pub update_cross_tx_rate : BlockInfoMsg → CrossTxRate → Option CrossTxRate
unfolding extend add_at
update_cross_tx_rate b m = if nat_beq b.block_body_length 0 then some m else (do
  let rounds = missing b.epoch m.epochs
  let grow = extend rounds 0
  normal ← add_at b.epoch (length b.inner_shard_txs) (grow m.normal_tx_num)
  relay1 ← add_at b.epoch (length b.relay1_txs) (grow m.relay1_tx_num)
  relay2 ← add_at b.epoch (length b.relay2_txs) (grow m.relay2_tx_num)
  cross ← add_at b.epoch (length b.relay1_txs + length b.relay2_txs) (grow m.tot_cross_tx_num)
  all ← add_at b.epoch (block_halves relay b) (grow m.tot_tx_num)
  some (record {
    epochs = m.epochs + rounds;
    normal_tx_num = normal;
    relay1_tx_num = relay1;
    relay2_tx_num = relay2;
    tot_tx_num = all;
    tot_cross_tx_num = cross;
  }))

module _ (fl : Floats) where
  open fl use {Float, of_int, div}

  abbrev pub epoch_ratios : List ℕ → List ℕ → List Float
  epoch_ratios [] cross = []
  epoch_ratios (t ∷ all) [] = []
  epoch_ratios (t ∷ all) (c ∷ cross) =
      div (of_int (pos c)) (of_int (pos t)) ∷ epoch_ratios all cross

  -- `OutputRecord`: the ratios of the epochs and that of all together.
  unfoldable pub output_cross_tx_rate : CrossTxRate → List Float × Float
  output_cross_tx_rate m = (
    epoch_ratios m.tot_tx_num m.tot_cross_tx_num
        ++ div (of_int (pos (sum m.tot_tx_num))) (of_int (pos 2))
          ∷ div (of_int (pos (sum m.tot_cross_tx_num))) (of_int (pos 2))
          ∷ [],
    div (of_int (pos (sum m.tot_cross_tx_num))) (of_int (pos (sum m.tot_tx_num))),
  )
