-- ===== src/Chain/Storage.antt =====
-- storage/storage.go: blocks, headers and the newest hash in three bolt buckets. The errors of bolt's
-- Put (a blank or oversized key, a full disk), which are a panic there, are not modelled: the buckets
-- take what is put into them. The keys are block hashes.
use blockchain_sharding.Base.{◌≡◌, Option, none, some, Bytes, bytes_beq_iff, arith, ◌⊎◌}
use blockchain_sharding.Core.Block.{BlockHeader, Block}
use blockchain_sharding.Chain.Backend.{BucketStore, Codec}
use blockchain_sharding.Message.{codes}

abbrev pub newest_key : Bytes
newest_key = codes "OnlyNewestBlock"

module _ (buckets : BucketStore) (codec : Codec) where
  open buckets use {Bucket, empty_bucket, get, put, get-put}
  open codec use {encode_b, decode_b, encode_bh, decode_bh}

  pub record Storage : Type 0 where
    pub block_bucket : Bucket
    pub block_header_bucket : Bucket
    pub newest_block_hash_bucket : Bucket

  -- A new database: its buckets exist and are empty.
  unfoldable pub new_storage : Storage
  new_storage = record {
    block_bucket = empty_bucket;
    block_header_bucket = empty_bucket;
    newest_block_hash_bucket = empty_bucket;
  }

  unfoldable pub update_newest_block : Storage → Bytes → Storage
  update_newest_block s newest_hash = record s {
    newest_block_hash_bucket = put s.newest_block_hash_bucket newest_key newest_hash;
  }

  unfoldable pub add_block_header : Storage → Bytes → BlockHeader → Storage
  add_block_header s hash bh = record s {
    block_header_bucket = put s.block_header_bucket hash (encode_bh bh);
  }

  unfoldable pub add_block : Storage → Block → Storage
  unfolding update_newest_block add_block_header
  add_block s b =
      let s' : Storage = record s { block_bucket = put s.block_bucket b.hash (encode_b b) } in
      update_newest_block (add_block_header s' b.hash b.header) b.hash

  -- `none` is the error "the block is not existed".
  unfoldable pub get_block_header : Storage → Bytes → Option BlockHeader
  get_block_header s hash = elim (get s.block_header_bucket hash) [
    | none ↦ none
    | some enc ↦ some (decode_bh enc)
  ]

  unfoldable pub get_block : Storage → Bytes → Option Block
  get_block s hash = elim (get s.block_bucket hash) [ none ↦ none | some enc ↦ some (decode_b enc) ]

  -- `none` is the error "cannot find the newest block hash".
  unfoldable pub get_newest_block_hash : Storage → Option Bytes
  get_newest_block_hash s = get s.newest_block_hash_bucket newest_key

  -- A stored block becomes the newest one, it and its header are read back unchanged under its
  -- hash, and reading any other hash gives what it gave before.
  pub add_block_lem :
      (s : Storage) (b : Block) (other : Bytes)
      → let s' = add_block s b in
        (get_newest_block_hash s' ≡ some b.hash)
        × (get_block s' b.hash ≡ some b)
        × (get_block_header s' b.hash ≡ some b.header)
        × ((b.hash ≡ other)
            ⊎ ((get_block s' other ≡ get_block s other)
                × (get_block_header s' other ≡ get_block_header s other)))
  unfolding add_block get_block get_block_header get_newest_block_hash
  add_block_lem s b other = ground (
    arith,
    get-put s.newest_block_hash_bucket newest_key b.hash newest_key,
    get-put s.block_bucket b.hash (encode_b b) b.hash,
    get-put s.block_bucket b.hash (encode_b b) other,
    get-put s.block_header_bucket b.hash (encode_bh b.header) b.hash,
    get-put s.block_header_bucket b.hash (encode_bh b.header) other,
    codec.decode_b-encode_b b,
    codec.decode_bh-encode_bh b.header,
    bytes_beq_iff b.hash b.hash,
    bytes_beq_iff b.hash other,
  )
