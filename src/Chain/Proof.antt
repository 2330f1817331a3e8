-- ===== src/Chain/Proof.antt =====
-- chain/merkleproof.go: the result of asking for the proof of a transaction, and the proofs of a
-- trie, which are go-ethereum's.
use blockchain_sharding.Base.{ℕ, Bool, Option, none, some, List, [], ◌∷◌, ◌≡◌, Bytes}
use blockchain_sharding.Chain.Backend.{Backend}

-- The error texts.
pub data ProofError : Type 0 where
  not_stored cannot_find not_in_block root_mismatch : ProofError

pub record TxProofResult : Type 0 where
  pub found : Bool
  pub block_hash : Bytes
  pub tx_hash : Bytes
  pub tx_root : Bytes
  pub block_height : ℕ
  pub key_list : List Bytes
  pub value_list : List Bytes
  pub error : Option ProofError

-- The key and value lists side by side, as the loop of `TxProofVerify` puts them into its database;
-- `none` is the panic on a missing value.
unfoldable pub proof_pairs : List Bytes → List Bytes → Option (List (Bytes × Bytes))
proof_pairs [] vs = some []
proof_pairs (k ∷ ks) [] = none
proof_pairs (k ∷ ks) (v ∷ vs) = elim (proof_pairs ks vs) [
  | none ↦ none
  | some ps ↦ some ((k, v) ∷ ps)
]

-- `Prove` of a trie gives the nodes of a proof, and `trie.VerifyProof` reads the value of a key
-- out of such nodes at a root: a key that a trie holds has a proof, and with its nodes the value
-- is read back at the root of the trie.
pub record Prover (be : Backend) : Type 0 where
  pub prove : be.tries.Trie → Bytes → Option (List Bytes × List Bytes)
  pub verify_proof : Bytes → Bytes → List (Bytes × Bytes) → Option Bytes
  pub has_proof :
      (t : be.tries.Trie) (k v : Bytes)
      → be.tries.get t k ≡ some v
      → (ks : List Bytes) × (vs : List Bytes) × (ps : List (Bytes × Bytes)) × (prove t k
          ≡ some (ks, vs))
        × (proof_pairs ks vs ≡ some ps)
        × (verify_proof (be.tries.root t) k ps ≡ some v)
