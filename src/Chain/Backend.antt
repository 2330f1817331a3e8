-- ===== src/Chain/Backend.antt =====
-- What the blockchain uses and this repository does not implement: the Merkle Patricia tries of
-- go-ethereum with their database, the buckets of bolt, gob encoding and the SHA-256 digests. The
-- laws are what their documentation says: a read sees the last write of its key, a committed trie
-- is found under its root and stays found, and decoding undoes encoding.
use blockchain_sharding.Base.{
  ◌≡◌, ◌≢◌, Option, none, some, Bytes, bytes_eq, bytes_beq, if◌then◌else◌,
}
use blockchain_sharding.Core.Account.{AccountState}
use blockchain_sharding.Core.Block.{BlockHeader, Block}
use blockchain_sharding.Core.Transaction.{Transaction}

-- `trie.Trie` and `trie.Database`. `open_trie` is `trie.New` at a root; `commit` is `Commit` of
-- the trie with `Update` and `Commit` of the database.
pub record TrieStore : Type 1 where
  pub Trie : Type 0
  pub TrieDb : Type 0
  pub empty_trie : Trie
  pub get : Trie → Bytes → Option Bytes
  pub update : Trie → Bytes → Bytes → Trie
  pub root : Trie → Bytes
  pub open_trie : TrieDb → Bytes → Option Trie
  pub commit : TrieDb → Trie → TrieDb
  pub get-update :
      (t : Trie) (k v j : Bytes)
      → get (update t k v) j ≡ (if bytes_beq k j then some v else get t j)
  pub open_trie-commit : (db : TrieDb) (t : Trie) → open_trie (commit db t) (root t) ≡ some t
  pub open_trie-commit_ne :
      (db : TrieDb) (t : Trie) (r : Bytes) → r ≢ root t → open_trie (commit db t) r ≡ open_trie db r

-- A bolt bucket.
pub record BucketStore : Type 1 where
  pub Bucket : Type 0
  pub empty_bucket : Bucket
  pub get : Bucket → Bytes → Option Bytes
  pub put : Bucket → Bytes → Bytes → Bucket
  pub get-empty : (k : Bytes) → get empty_bucket k ≡ none
  pub get-put :
      (b : Bucket) (k v j : Bytes) → get (put b k v) j ≡ (if bytes_beq k j then some v else get b j)

-- gob and SHA-256. `header_digest` is the hash of an encoded header, `tx_digest` of an encoded
-- transaction.
pub record Codec : Type 0 where
  pub encode_as : AccountState → Bytes
  pub decode_as : Bytes → AccountState
  pub encode_b : Block → Bytes
  pub decode_b : Bytes → Block
  pub encode_bh : BlockHeader → Bytes
  pub decode_bh : Bytes → BlockHeader
  pub header_digest : BlockHeader → Bytes
  pub tx_digest : Transaction → Bytes
  pub decode_as-encode_as : (s : AccountState) → decode_as (encode_as s) ≡ s
  pub decode_b-encode_b : (b : Block) → decode_b (encode_b b) ≡ b
  pub decode_bh-encode_bh : (bh : BlockHeader) → decode_bh (encode_bh bh) ≡ bh

pub record Backend : Type 1 where
  pub tries : TrieStore
  pub buckets : BucketStore
  pub codec : Codec
