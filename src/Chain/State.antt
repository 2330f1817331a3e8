-- ===== src/Chain/State.antt =====
-- The state of a blockchain and the execution of transactions on its status trie:
-- `Get_PartitionMap`, `Update_PartitionMap`, `GetUpdateStatusTrie`, `AddAccounts`,
-- `FetchAccounts`. `none` is a panic.
use blockchain_sharding.Base.{
  ℕ, ◌+◌, Bool, false, ◌||◌, Option, none, some, List, [], ◌∷◌, Bytes, Dict, lookup, insert,
  nat_beq, bytes_eq, ltb_ℤ, pos, if◌then◌else◌, ◌>>=◌, ◌+ℤ◌,
}
use blockchain_sharding.Params.{ChainConfig, GlobalConfig, init_balance}
use blockchain_sharding.Utils.{addr_to_shard}
use blockchain_sharding.Core.Account.{AccountState, deduct, deposit}
use blockchain_sharding.Core.Block.{Block}
use blockchain_sharding.Core.Transaction.{Transaction}
use blockchain_sharding.Core.Txpool.{TxPool}
use blockchain_sharding.Chain.Backend.{Backend}
use blockchain_sharding.Chain.Storage

module _ (be : Backend) where
  open be use {tries, buckets, codec}
  open tries use {Trie, TrieDb, empty_trie, get, update, root, open_trie, commit}
  open codec use {encode_as, decode_as, header_digest}

  pub record BlockChain : Type 0 where
    pub triedb : TrieDb
    pub chain_config : ChainConfig
    pub globals : GlobalConfig
    pub current_block : Block
    pub storage : Storage.Storage buckets codec
    pub txpool : TxPool
    pub partition_map : Dict Bytes ℕ

  unfoldable pub update_partition_map : BlockChain → Bytes → ℕ → BlockChain
  update_partition_map bc key val = record bc { partition_map = insert key val bc.partition_map }

  -- An account that the map does not name has its default shard.
  unfoldable pub get_partition_map : BlockChain → Bytes → Option ℕ
  get_partition_map bc key = elim (lookup key bc.partition_map) [
    | none ↦ addr_to_shard bc.globals.shard_num key
    | some shard ↦ some shard
  ]

  -- An account that the trie does not hold starts with the initial balance; its nonce is the
  -- position of the transaction in the block.
  unfoldable pub load_account : Trie → ℕ → Bytes → AccountState
  load_account st i addr = elim (get st addr) [
    | none ↦ record {
      ac_address = [];
      nonce = i;
      balance = init_balance;
      storage_root = [];
      code_hash = [];
    }
    | some enc ↦ decode_as enc
  ]

  -- `!tx.Relayed && (Get_PartitionMap(tx.Sender) == ShardID || tx.HasBroker)`
  unfoldable pub sender_in : BlockChain → Transaction → Option Bool
  unfolding get_partition_map
  sender_in bc tx = if tx.relayed then some false else (do
    shard ← get_partition_map bc tx.sender
    some (nat_beq shard bc.chain_config.shard_id || tx.has_broker))

  unfoldable pub recipient_in : BlockChain → Transaction → Option Bool
  unfolding get_partition_map
  recipient_in bc tx = do
    shard ← get_partition_map bc tx.recipient
    some (nat_beq shard bc.chain_config.shard_id || tx.has_broker)

  unfoldable pub credit_recipient : BlockChain → ℕ → Transaction → Trie × ℕ → Option (Trie × ℕ)
  unfolding recipient_in load_account
  credit_recipient bc i tx (st, cnt) = do
    here ← recipient_in bc tx
    if here
        then (let r_state = deposit (load_account st i tx.recipient) tx.value in
            some (update st tx.recipient (encode_as r_state), cnt + 1))
        else some (st, cnt)

  -- One round of the loop; a balance below the value skips the rest of the round.
  unfoldable pub handle_tx : BlockChain → ℕ → Transaction → Trie × ℕ → Option (Trie × ℕ)
  unfolding sender_in load_account credit_recipient
  handle_tx bc i tx (st, cnt) = do
    here ← sender_in bc tx
    let s_state = load_account st i tx.sender
    if here
        then (if ltb_ℤ s_state.balance tx.value
            then some (st, cnt)
            else credit_recipient bc i tx
                (update st tx.sender (encode_as (deduct s_state tx.value).0), cnt + 1))
        else credit_recipient bc i tx (st, cnt)

  unfoldable pub handle_txs : BlockChain → ℕ → List Transaction → Trie × ℕ → Option (Trie × ℕ)
  handle_txs bc i [] acc = some acc
  handle_txs bc i (tx ∷ txs) acc = elim (handle_tx bc i tx acc) [
    | none ↦ none
    | some acc' ↦ handle_txs bc (i + 1) txs acc'
  ]

  -- The new root, and the database with the trie committed.
  unfoldable pub get_update_status_trie :
      BlockChain → List Transaction → Option (BlockChain × Bytes)
  unfolding handle_txs
  get_update_status_trie bc [] = some (bc, bc.current_block.header.state_root)
  get_update_status_trie bc (tx ∷ txs) = do
    st ← open_trie bc.triedb bc.current_block.header.state_root
    (st', cnt) ← handle_txs bc 0 (tx ∷ txs) (st, 0)
    if nat_beq cnt 0
        then some (bc, bc.current_block.header.state_root)
        else some (record bc { triedb = commit bc.triedb st' }, root st')

  -- `AddAccounts`, the loop over the accounts that belong to this shard.
  unfoldable pub put_accounts : BlockChain → List (Bytes × AccountState) → Trie → Option Trie
  put_accounts bc [] st = some st
  put_accounts bc ((addr, acc) ∷ rest) st = elim (get_partition_map bc addr) [
    | none ↦ none
    | some shard ↦ put_accounts bc rest (
        if nat_beq shard bc.chain_config.shard_id
        then update st addr (
            encode_as (record {
              ac_address = [];
              nonce = acc.nonce;
              balance = pos 0 +ℤ acc.balance;
              storage_root = [];
              code_hash = [];
            }))
        else st)
  ]

  -- `FetchAccounts`: an account that is not there is made up with the initial balance.
  unfoldable pub fetch_from : Trie → List Bytes → List AccountState
  unfolding load_account
  fetch_from st [] = []
  fetch_from st (addr ∷ addrs) = load_account st 0 addr ∷ fetch_from st addrs

  unfoldable pub fetch_accounts : BlockChain → List Bytes → Option (List AccountState)
  unfolding fetch_from
  fetch_accounts bc addrs = do
    st ← open_trie bc.triedb bc.current_block.header.state_root
    some (fetch_from st addrs)
