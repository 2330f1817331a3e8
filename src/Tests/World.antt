-- ===== src/Tests/World.antt =====
-- Concrete tries, buckets and encodings, and a shard with a genesis block.
use blockchain_sharding.Base.{
  ℕ, ◌≡◌, refl, sym, ap, Option, none, some, List, [], ◌∷◌, Bytes, ℤ, Dict, lookup, insert,
  bytes_eq, lookup-insert, lookup-insert_self, lookup-insert_ne,
}
use blockchain_sharding.Params.{ChainConfig, GlobalConfig}
use blockchain_sharding.Core.Block.{Block}
use blockchain_sharding.Core.Transaction.{Transaction, new_transaction}
use blockchain_sharding.Core.Txpool.{new_tx_pool}
use blockchain_sharding.Chain.Backend.{TrieStore, BucketStore, Codec, Backend}
use blockchain_sharding.Chain.Storage
use blockchain_sharding.Chain.State.{BlockChain}
use blockchain_sharding.Chain.Proof.{Prover, proof_pairs}
use blockchain_sharding.Message.{codes}
use blockchain_sharding.Tests.Codec.{
  account_ser, header_ser, block_ser, list_ser, pair_ser, bytes_ser, tx_ser,
}

abbrev pub MapTrie : Type 0
MapTrie = Dict Bytes Bytes

abbrev pub map_root : MapTrie → Bytes
map_root t = (list_ser (pair_ser bytes_ser bytes_ser)).put t []

abbrev pub map_tries : TrieStore
map_tries = record {
  Trie = MapTrie;
  TrieDb = Dict Bytes MapTrie;
  empty_trie = [];
  get = λ t k. lookup k t;
  update = λ t k v. insert k v t;
  root = map_root;
  open_trie = λ db r. lookup r db;
  commit = λ db t. insert (map_root t) t db;
  get-update = λ t k v j. lookup-insert k j v t;
  open_trie-commit = λ db t. lookup-insert_self (map_root t) t db;
  open_trie-commit_ne = λ db t r differ. lookup-insert_ne (map_root t) r t db (λ e. differ (sym e));
}

abbrev pub map_buckets : BucketStore
map_buckets = record {
  Bucket = MapTrie;
  empty_bucket = [];
  get = λ t k. lookup k t;
  put = λ t k v. insert k v t;
  get-empty = λ k. refl;
  get-put = λ t k v j. lookup-insert k j v t;
}

abbrev pub list_codec : Codec
list_codec = record {
  encode_as = λ s. account_ser.put s [];
  decode_as = λ bs. (account_ser.read bs).0;
  encode_b = λ b. block_ser.put b [];
  decode_b = λ bs. (block_ser.read bs).0;
  encode_bh = λ h. header_ser.put h [];
  decode_bh = λ bs. (header_ser.read bs).0;
  header_digest = λ h. header_ser.put h [];
  tx_digest = λ t. tx_ser.put t [];
  decode_as-encode_as = λ s. ap (λ r. r.0) (account_ser.read-put s []);
  decode_b-encode_b = λ b. ap (λ r. r.0) (block_ser.read-put b []);
  decode_bh-encode_bh = λ h. ap (λ r. r.0) (header_ser.read-put h []);
}

abbrev pub world : Backend
world = record { tries = map_tries; buckets = map_buckets; codec = list_codec }

abbrev pub prove_key : MapTrie → Bytes → Option (List Bytes × List Bytes)
prove_key t k = elim (lookup k t) [ none ↦ none | some v ↦ some (k ∷ [], v ∷ []) ]

pub has_key_proof :
    (t : MapTrie) (k v : Bytes)
    → lookup k t ≡ some v
    → (ks : List Bytes) × (vs : List Bytes) × (ps : List (Bytes × Bytes)) × (prove_key t k
        ≡ some (ks, vs))
      × (proof_pairs ks vs ≡ some ps)
      × (lookup k ps ≡ some v)
unfolding proof_pairs
has_key_proof t k v e = (
  k ∷ [],
  v ∷ [],
  (k, v) ∷ [],
  ap (λ r. elim r [ none ↦ none | some w ↦ some (k ∷ [], w ∷ []) ]) e,
  refl,
  lookup-insert_self k v [],
)

abbrev pub key_prover : Prover world
key_prover = record {
  prove = prove_key;
  verify_proof = λ r k ps. lookup k ps;
  has_proof = has_key_proof;
}

-- Two shards; addresses end in 0 or in 1.
abbrev pub config : ℕ → ChainConfig
config shard_id = record {
  chain_id = 7;
  node_id = 0;
  shard_id = shard_id;
  nodes_per_shard = 4;
  shard_nums = 2;
  block_size = 10;
  block_interval = 5000;
  inject_speed = 100;
  max_relay_block_size = 10;
}

abbrev pub globals : GlobalConfig
globals = record {
  shard_num = 2;
  max_block_size = 10;
  blocksize_in_bytes = 0;
  use_blocksize_in_bytes = 0;
  inject_speed = 100;
  relay_with_merkle_proof = 0;
}

abbrev pub alice : Bytes
alice = codes "a0"

abbrev pub bob : Bytes
bob = codes "b1"

abbrev pub carol : Bytes
carol = codes "c0"

unfoldable pub pay : Bytes → Bytes → ℤ → Transaction
unfolding new_transaction
pay s r v = new_transaction (λ tx. tx_ser.put tx []) s r v 1 5

abbrev pub genesis : Block
genesis = record {
  header = record {
    parent_block_hash = [];
    state_root = map_root [];
    tx_root = map_root [];
    bloom = [];
    number = 0;
    time = 0;
    miner = 0;
  };
  body = [];
  hash = codes "genesis";
}

abbrev pub shard : ℕ → BlockChain world
shard shard_id = record {
  triedb = (map_root [], []) ∷ [];
  chain_config = config shard_id;
  globals = globals;
  current_block = genesis;
  storage =
      Storage.add_block map_buckets list_codec (Storage.new_storage map_buckets list_codec) genesis;
  txpool = new_tx_pool;
  partition_map = (alice, 0) ∷ (bob, 1) ∷ (carol, 0) ∷ [];
}
