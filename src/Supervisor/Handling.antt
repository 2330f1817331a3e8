-- ===== src/Supervisor/Handling.antt =====
-- supervisor/supervisor.go: what the supervisor does with a message. The committee and the measures
-- are the interfaces of the source, which the supervisor calls.
use blockchain_sharding.Base.{
  ℕ, zero, suc, Option, none, some, List, [], ◌∷◌, ◌++◌, Bytes, map, nat_beq, bytes_beq,
  if◌then◌else◌, ◌>>=◌,
}
use blockchain_sharding.Message.{codes, split_message}
use blockchain_sharding.Pbft.Messages.{BlockInfoMsg}
use blockchain_sharding.Supervisor.Signal.{StopSignal, stop_gap_inc, stop_gap_reset}

-- `CommitteeModule`; its state is `State`.
pub record CommitteeModule : Type 1 where
  pub State : Type 0
  pub handle_block_info : BlockInfoMsg → State → State
  pub handle_other_message : Bytes → State → State

-- `MeasureModule`; `none` is a panic.
pub record MeasureModule : Type 1 where
  pub State : Type 0
  pub update_measure_record : BlockInfoMsg → State → Option State
  pub handle_extra_message : Bytes → State → State

abbrev pub c_block_info : Bytes
c_block_info = codes "BlockInfo"

-- `if bim.BlockBodyLength == 0`
unfoldable pub check_stop : BlockInfoMsg → StopSignal → StopSignal
unfolding stop_gap_inc stop_gap_reset
check_stop bim ss = if nat_beq bim.block_body_length 0 then stop_gap_inc ss else stop_gap_reset ss

module _ (committee : CommitteeModule) (mea : MeasureModule) where
  pub record Supervisor : Type 0 where
    pub ss : StopSignal
    pub com_mod : committee.State
    pub test_measure_mods : List mea.State

  unfoldable pub update_measures : BlockInfoMsg → List mea.State → Option (List mea.State)
  update_measures bim [] = some []
  update_measures bim (m ∷ ms) = elim (mea.update_measure_record bim m) [
    | none ↦ none
    | some m' ↦ elim (update_measures bim ms) [ none ↦ none | some ms' ↦ some (m' ∷ ms') ]
  ]

  unfoldable pub handle_block_infos : BlockInfoMsg → Supervisor → Option Supervisor
  unfolding check_stop update_measures
  handle_block_infos bim d = do
    measures ← update_measures bim d.test_measure_mods
    some (record {
      ss = check_stop bim d.ss;
      com_mod = committee.handle_block_info bim d.com_mod;
      test_measure_mods = measures;
    })

  -- `decode` is the JSON decoder of block infos; its failure is a panic.
  unfoldable pub handle_message :
      (Bytes → Option BlockInfoMsg) → Bytes → Supervisor → Option Supervisor
  unfolding handle_block_infos
  handle_message decode msg d = do
    (msg_type, content) ← split_message msg
    if bytes_beq msg_type c_block_info
        then (decode content >>= λ bim. handle_block_infos bim d)
        else some (record d {
          com_mod = committee.handle_other_message msg d.com_mod;
          test_measure_mods = map (mea.handle_extra_message msg) d.test_measure_mods;
        })

-- The nodes that get the stop message, shard by shard.
abbrev pub nodes_of_shard : ℕ → ℕ → List (ℕ × ℕ)
nodes_of_shard sid zero = []
nodes_of_shard sid (suc n) = nodes_of_shard sid n ++ (sid, n) ∷ []

unfoldable pub stop_targets : ℕ → ℕ → List (ℕ × ℕ)
stop_targets zero nodes_per_shard = []
stop_targets (suc sid) nodes_per_shard =
    stop_targets sid nodes_per_shard ++ nodes_of_shard sid nodes_per_shard
