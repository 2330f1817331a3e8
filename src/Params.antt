-- ===== src/Params.antt =====
-- params/static_config.go and the variables of params/global_config.go that the modelled code
-- reads. The variables are set once, at the start, so they are values here.
use blockchain_sharding.Base.{ℕ, ℤ, pos, ◌^◌}

pub record ChainConfig : Type 0 where
  pub chain_id : ℕ
  pub node_id : ℕ
  pub shard_id : ℕ
  pub nodes_per_shard : ℕ
  pub shard_nums : ℕ
  pub block_size : ℕ
  pub block_interval : ℕ
  pub inject_speed : ℕ
  pub max_relay_block_size : ℕ

pub record GlobalConfig : Type 0 where
  pub shard_num : ℕ
  pub max_block_size : ℕ
  pub blocksize_in_bytes : ℕ
  pub use_blocksize_in_bytes : ℕ
  pub inject_speed : ℕ
  pub relay_with_merkle_proof : ℕ

-- "1" and 44 zeros.
abbrev pub init_balance : ℤ
init_balance = pos (10 ^ 44)
