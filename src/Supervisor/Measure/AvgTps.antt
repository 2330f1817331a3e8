-- ===== src/Supervisor/Measure/AvgTps.antt =====
-- measure_avgTPS_Relay.go and measure_avgTPS_Broker.go: the counts and the times of each epoch.
-- `none` among the times is the zero time.
use blockchain_sharding.Base.{
  ℕ, zero, suc, ◌+◌, Option, none, some, List, [], ◌∷◌, nat_beq, ltb, if◌then◌else◌, ◌>>=◌, length,
}
use blockchain_sharding.Pbft.Messages.{BlockInfoMsg}
use blockchain_sharding.Supervisor.Measure.{
  TxKind, relay, broker, first_num, second_num, missing, extend, add_at, block_halves,
}

pub record AvgTps : Type 0 where
  pub epochs : ℕ
  pub excuted_tx_num : List ℕ
  pub normal_tx_num : List ℕ
  pub first_tx_num : List ℕ
  pub second_tx_num : List ℕ
  pub start_time : List (Option ℕ)
  pub end_time : List (Option ℕ)

unfoldable pub new_avg_tps : AvgTps
new_avg_tps = record {
  epochs = 0;
  excuted_tx_num = [];
  normal_tx_num = [];
  first_tx_num = [];
  second_tx_num = [];
  start_time = [];
  end_time = [];
}

abbrev pub earlier : ℕ → Option ℕ → Option ℕ
earlier t none = some t
earlier t (some s) = if ltb t s then some t else some s

abbrev pub later : ℕ → Option ℕ → Option ℕ
later t none = some t
later t (some s) = if ltb s t then some t else some s

-- The time of an epoch, changed.
unfoldable pub change_at : ℕ → (Option ℕ → Option ℕ) → List (Option ℕ) → Option (List (Option ℕ))
change_at i f [] = none
change_at zero f (t ∷ ts) = some (f t ∷ ts)
change_at (suc i) f (t ∷ ts) = elim (change_at i f ts) [ none ↦ none | some rest ↦ some (t ∷ rest) ]

unfoldable pub update_avg_tps : TxKind → BlockInfoMsg → AvgTps → Option AvgTps
unfolding extend add_at change_at
update_avg_tps kind b m = if nat_beq b.block_body_length 0 then some m else (do
  let rounds = missing b.epoch m.epochs
  let grow = extend rounds 0
  excuted ← add_at b.epoch (block_halves kind b) (grow m.excuted_tx_num)
  normal ← add_at b.epoch (length b.inner_shard_txs) (grow m.normal_tx_num)
  first ← add_at b.epoch (first_num kind b) (grow m.first_tx_num)
  second ← add_at b.epoch (second_num kind b) (grow m.second_tx_num)
  starts ← change_at b.epoch (earlier b.propose_time) (extend rounds none m.start_time)
  ends ← change_at b.epoch (later b.commit_time) (extend rounds none m.end_time)
  some (record {
    epochs = m.epochs + rounds;
    excuted_tx_num = excuted;
    normal_tx_num = normal;
    first_tx_num = first;
    second_tx_num = second;
    start_time = starts;
    end_time = ends;
  }))

unfoldable pub update_relay_tps : BlockInfoMsg → AvgTps → Option AvgTps
update_relay_tps = update_avg_tps relay

unfoldable pub update_broker_tps : BlockInfoMsg → AvgTps → Option AvgTps
update_broker_tps = update_avg_tps broker
