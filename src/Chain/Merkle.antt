-- ===== src/Chain/Merkle.antt =====
-- chain/merkleproof.go: proofs that a transaction is in a block, and their check. The proofs of a
-- trie themselves are go-ethereum's.
use blockchain_sharding.Base.{
  ℕ, zero, suc, ◌≡◌, refl, ap, ◌∙◌, Bool, true, false, not, ◌||◌, Option, none, some, List, [], ◌∷◌,
  Bytes, nat_beq, nat_beq_iff, bytes_beq, bytes_beq_iff, if◌then◌else◌, arith, map, Bool-cases, All,
}
use blockchain_sharding.Utils.{mod_bytes}
use blockchain_sharding.Core.Block.{Block}
use blockchain_sharding.Core.Transaction.{Transaction}
use blockchain_sharding.Chain.Backend.{Backend}
use blockchain_sharding.Chain.Storage
use blockchain_sharding.Chain.State.{BlockChain}
use blockchain_sharding.Chain.Blocks.{bloom_bits, get_bloom_filter, hash_tree, get_tx_tree_root}
use blockchain_sharding.Chain.Proof.{
  Prover, proof_pairs, TxProofResult, ProofError, not_stored, cannot_find, not_in_block,
  root_mismatch,
}

-- Whether a list holds the number, and whether a block holds the hash.
abbrev pub test_bit : ℕ → List ℕ → Bool
test_bit i [] = false
test_bit i (j ∷ js) = nat_beq j i || test_bit i js

abbrev pub holds_tx : Bytes → List Transaction → Bool
holds_tx h [] = false
holds_tx h (tx ∷ txs) = bytes_beq h tx.tx_hash || holds_tx h txs

module _ (be : Backend) (prover : Prover be) where
  open be use {tries, buckets, codec}
  open tries use {Trie, empty_trie, get, update, root, get-update}
  open prover use {prove, verify_proof, has_proof}

  abbrev pub not_found : Bytes → ProofError → TxProofResult
  not_found tx_hash e = record {
    found = false;
    block_hash = [];
    tx_hash = tx_hash;
    tx_root = [];
    block_height = 0;
    key_list = [];
    value_list = [];
    error = some e;
  }

  -- The proof of a hash in the tree of a block's transactions.
  unfoldable pub proof_in : Trie → Bytes → Block → TxProofResult
  proof_in t tx_hash b = elim (prove t tx_hash) [
    | none ↦ not_found tx_hash cannot_find
    | some (ks, vs) ↦ record {
      found = true;
      block_hash = b.hash;
      tx_hash = tx_hash;
      tx_root = b.header.tx_root;
      block_height = b.header.number;
      key_list = ks;
      value_list = vs;
      error = none;
    }
  ]

  unfoldable pub tx_proof_generate_on_the_block : Bytes → Block → TxProofResult
  unfolding proof_in
  tx_proof_generate_on_the_block tx_hash b =
      if not (test_bit (mod_bytes tx_hash 2048) b.header.bloom)
      then not_found tx_hash cannot_find
      else if not (holds_tx tx_hash b.body)
      then not_found tx_hash not_in_block
      else if not (bytes_beq (get_tx_tree_root be b.body) b.header.tx_root)
      then not_found tx_hash root_mismatch
      else proof_in (hash_tree be empty_trie b.body) tx_hash b

  -- `TxProofGenerate`: from the block of a hash back, `height` blocks at most.
  unfoldable pub search_blocks : Bytes → ℕ → Bytes → Storage.Storage buckets codec → TxProofResult
  search_blocks tx_hash zero block_hash storage = not_found tx_hash cannot_find
  search_blocks tx_hash (suc height) block_hash storage =
      elim (Storage.get_block buckets codec storage block_hash) [
        | none ↦ not_found tx_hash not_stored
        | some b ↦
            (let rest = search_blocks tx_hash height b.header.parent_block_hash storage in
              let ret = tx_proof_generate_on_the_block tx_hash b in if ret.found then ret else rest)
      ]

  unfoldable pub tx_proof_generate : BlockChain be → Bytes → TxProofResult
  unfolding search_blocks
  tx_proof_generate bc tx_hash =
      search_blocks tx_hash bc.current_block.header.number bc.current_block.hash bc.storage

  unfoldable pub batch_proof : Block → Bytes → TxProofResult
  unfolding proof_in
  batch_proof b tx_hash =
      if not (test_bit (mod_bytes tx_hash 2048) b.header.bloom)
      then not_found tx_hash cannot_find
      else proof_in (hash_tree be empty_trie b.body) tx_hash b

  unfoldable pub tx_proof_batch_generate_on_block : List Bytes → Block → List TxProofResult
  unfolding batch_proof
  tx_proof_batch_generate_on_block tx_hashes b =
      if not (bytes_beq (get_tx_tree_root be b.body) b.header.tx_root)
      then map (λ h. not_found h root_mismatch) tx_hashes
      else map (batch_proof b) tx_hashes

  -- `none` is a panic.
  unfoldable pub tx_proof_verify : Bytes → TxProofResult → Option Bool
  tx_proof_verify tx_hash proof =
      if not proof.found then some false else (elim (proof_pairs proof.key_list proof.value_list) [
        | none ↦ none
        | some ps ↦ elim (verify_proof proof.tx_root proof.tx_hash ps) [
          | none ↦ some false
          | some _ ↦ some true
        ]
      ])

  get-hash_tree :
      (h : Bytes) (t : Trie) (txs : List Transaction)
      → get (hash_tree be t txs) h ≡ (if holds_tx h txs then some (0 ∷ []) else get t h)
  unfolding hash_tree
  get-hash_tree h t [] = refl
  get-hash_tree h t (tx ∷ txs) = ground (
    arith,
    get-hash_tree h (update t tx.tx_hash (0 ∷ [])) txs,
    get-update t tx.tx_hash (0 ∷ []) h,
    bytes_beq_iff tx.tx_hash h,
    bytes_beq_iff h tx.tx_hash,
  )

  test_bit-bloom_bits :
      (h : Bytes) (txs : List Transaction)
      → holds_tx h txs ≡ true
      → test_bit (mod_bytes h 2048) (bloom_bits txs) ≡ true
  unfolding bloom_bits
  test_bit-bloom_bits h [] e = e
  test_bit-bloom_bits h (tx ∷ txs) e = grind (
    arith,
    e,
    test_bit-bloom_bits h txs,
    bytes_beq_iff h tx.tx_hash,
    nat_beq_iff (mod_bytes tx.tx_hash 2048) (mod_bytes h 2048),
    Bool-cases (bytes_beq h tx.tx_hash),
  )

  -- A block that carries the root and the filter of its transactions.
  pub record IsSealed (b : Block) : Type 0 where
    pub has_root : b.header.tx_root ≡ get_tx_tree_root be b.body
    pub has_bloom : b.header.bloom ≡ get_bloom_filter b.body

  single_proof :
      (h : Bytes) (b : Block)
      → IsSealed b
      → holds_tx h b.body ≡ true
      → let proof = tx_proof_generate_on_the_block h b in
        (proof.found ≡ true)
        × (proof.tx_hash ≡ h)
        × (batch_proof b h ≡ proof)
        × (tx_proof_verify h proof ≡ some true)
  unfolding tx_proof_generate_on_the_block batch_proof tx_proof_verify get_tx_tree_root
      get_bloom_filter
  single_proof h b s holds =
      let (ks, vs, ps, made, paired, read) = has_proof (hash_tree be empty_trie b.body) h (0 ∷ []) (
        get-hash_tree h empty_trie b.body
        ∙ ap (λ x. if x then some (0 ∷ []) else get empty_trie h) holds) in
      ground (
        arith,
        made,
        paired,
        read,
        holds,
        s.has_root,
        s.has_bloom,
        test_bit-bloom_bits h b.body holds,
        bytes_beq_iff (root (hash_tree be empty_trie b.body)) b.header.tx_root,
      )

  batch-single :
      (hs : List Bytes) (b : Block)
      → IsSealed b
      → All (λ h. holds_tx h b.body ≡ true) hs
      → map (batch_proof b) hs ≡ map (λ h. tx_proof_generate_on_the_block h b) hs
  batch-single [] b s h = refl
  batch-single (h ∷ hs) b s (holds, rest) =
      let (found, hash, same, ok) = single_proof h b s holds in
      ap (λ x. x ∷ map (batch_proof b) hs) same
      ∙ ap (λ l. tx_proof_generate_on_the_block h b ∷ l) (batch-single hs b s rest)

  abbrev pub HasProof : Block → Bytes → Type 0
  HasProof b h =
      let proof = tx_proof_generate_on_the_block h b in
      (proof.found ≡ true) × (proof.tx_hash ≡ h) × (tx_proof_verify h proof ≡ some true)

  All-HasProof :
      (hs : List Bytes) (b : Block)
      → IsSealed b
      → All (λ h. holds_tx h b.body ≡ true) hs
      → All (HasProof b) hs
  All-HasProof [] b s h = tt
  All-HasProof (h ∷ hs) b s (holds, rest) =
      let (found, hash, same, ok) = single_proof h b s holds in
      ((found, hash, ok), All-HasProof hs b s rest)

  -- For any list of hashes of transactions of a sealed block: a batch gives, in order, the proof
  -- that each of them gets on its own, and each of these proofs is for its hash, says that it was
  -- found, and is accepted by the check.
  pub proof_accepted :
      (hs : List Bytes) (b : Block)
      → IsSealed b
      → All (λ h. holds_tx h b.body ≡ true) hs
      → (tx_proof_batch_generate_on_block hs b ≡ map (λ h. tx_proof_generate_on_the_block h b) hs)
        × All (HasProof b) hs
  unfolding tx_proof_batch_generate_on_block get_tx_tree_root
  proof_accepted hs b s holds = (
    ground (
      arith,
      s.has_root,
      batch-single hs b s holds,
      bytes_beq_iff (root (hash_tree be empty_trie b.body)) b.header.tx_root,
    ),
    All-HasProof hs b s holds,
  )

  -- The check never looks at the transaction that it is asked about: the proof of one transaction
  -- of a sealed block is accepted for any hash whatever.
  pub proof_accepted_for_any :
      (h other : Bytes) (b : Block)
      → IsSealed b
      → holds_tx h b.body ≡ true
      → tx_proof_verify other (tx_proof_generate_on_the_block h b) ≡ some true
  unfolding tx_proof_verify
  proof_accepted_for_any h other b s holds =
      let (found, hash, batch, ok) = single_proof h b s holds in ok
