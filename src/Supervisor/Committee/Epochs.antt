-- ===== src/Supervisor/Committee/Epochs.antt =====
-- committee_clpa.go, recordEpochAck: which shards have reported an epoch. An epoch fits an `int32`.
use blockchain_sharding.Base.{
  ℕ, zero, suc, Bool, true, not, none, some, [], Dict, lookup, lookup_or, insert, keep, nat_beq,
  ltb, leb, if◌then◌else◌, length, nat_eq,
}

pub record Epochs : Type 0 where
  pub cur_epoch : ℕ
  pub epoch_shard_acks : Dict ℕ (Dict ℕ Bool)

abbrev pub start_epochs : Epochs
start_epochs = record { cur_epoch = 0; epoch_shard_acks = [] }

abbrev pub delete : {V : Type 0} → ℕ → Dict ℕ V → Dict ℕ V
delete k m = keep (λ e. not (nat_beq e.0 k)) m

-- `epochShardAcks[epoch][shardID] = struct{}{}`
abbrev pub enter_ack : ℕ → ℕ → Dict ℕ (Dict ℕ Bool) → Dict ℕ (Dict ℕ Bool)
enter_ack shard_id epoch acks = insert epoch (insert shard_id true (lookup_or epoch [] acks)) acks

-- The loop from the epoch after the current one on. It deletes an entry in each round, so that the
-- number of the entries is enough fuel.
unfoldable pub advance : ℕ → ℕ → Epochs → Epochs
advance shard_num zero st = st
advance shard_num (suc fuel) st = elim (lookup (suc st.cur_epoch) st.epoch_shard_acks) [
  | none ↦ st
  | some acks ↦
      let rest = advance shard_num fuel (record {
        cur_epoch = suc st.cur_epoch;
        epoch_shard_acks = delete (suc st.cur_epoch) st.epoch_shard_acks;
      }) in
      if ltb (length acks) shard_num then st else rest
]

unfoldable pub record_epoch_ack : ℕ → ℕ → ℕ → Epochs → Epochs
unfolding advance
record_epoch_ack shard_num shard_id epoch st =
    let acks = enter_ack shard_id epoch st.epoch_shard_acks in
    if leb epoch st.cur_epoch
    then st
    else advance shard_num (length acks) (record st { epoch_shard_acks = acks })
