-- ===== src/Relay/Module.antt =====
-- The relay module as the message module of a consensus node: the interface of
-- pbftMod_interface.go filled with pbftInside_module.go, and what the two do together.
use blockchain_sharding.Base.{
  ℕ, ◌≡◌, refl, sym, ap, ◌∙◌, Bool, Option, none, some, List, [], ◌∷◌, ◌++◌, Bytes, map, lookup,
  bytes_eq, nat_eq, count, count-append, arith, Option-cases,
}
use blockchain_sharding.Core.Txpool.{relays_of}
use blockchain_sharding.Core.Block.{Block}
use blockchain_sharding.Chain.Backend.{Backend}
use blockchain_sharding.Chain.State.{BlockChain}
use blockchain_sharding.Chain.Blocks.{add_block, generate_block}
use blockchain_sharding.Chain.Proof.{Prover}
use blockchain_sharding.Chain.Merkle.{tx_proof_batch_generate_on_block}
use blockchain_sharding.Pbft.Messages.{Request, Prepare, Commit, Out, Payload}
use blockchain_sharding.Pbft.Node.{PbftState}
use blockchain_sharding.Pbft.Interface.{ExtraOpInConsensus}
use blockchain_sharding.Pbft.Marks.{is_commit_of}
use blockchain_sharding.Pbft.Once.{IsQuiet}
use blockchain_sharding.Relay.Inside.{
  Chain, Sorted, unsorted, sort_txs, other_shards, relay_msg_for, relay_msg_send,
  relay_with_proof_send, send_relays, sorted_chain, takes_block, handle_in_propose,
  handle_in_pre_prepare, handle_in_prepare, relay_block, handle_in_commit,
  handle_request_for_old_seq, handle_for_sequential_request, block_info, read_time,
}

module _ (be : Backend) (prover : Prover be) (size_of : ℕ) where
  unfoldable pub relay_module : ExtraOpInConsensus (Chain be)
  relay_module = record {
    handle_in_propose = handle_in_propose be prover size_of;
    handle_in_pre_prepare = handle_in_pre_prepare be prover size_of;
    handle_in_prepare = handle_in_prepare be prover size_of;
    handle_in_commit = handle_in_commit be prover size_of;
    handle_request_for_old_seq = handle_request_for_old_seq be prover size_of;
    handle_for_sequential_request = handle_for_sequential_request be prover size_of;
  }

  abbrev pub info_for : PbftState → Request → Block → Sorted → Chain be → Out
  info_for p r b s c =
      Out.to_supervisor (Payload.block_info (block_info be p r b s (read_time c.clock).0))

  pub relay_block-run :
      (p : PbftState) (r : Request) (b : Block) (aliased : Bool) (c : Chain be) (s : Sorted)
      (bc' : BlockChain be) (sent : List Out)
      → sort_txs be c.bc p.shard_id b.body (unsorted be c.bc.txpool) ≡ some s
      → send_relays be prover p
          (record b { body = s.body })
          (sorted_chain be prover size_of b s aliased c.bc)
        ≡ some (bc', sent)
      → relay_block be prover size_of p r b aliased c
        ≡ some (record { bc = bc'; clock = (read_time c.clock).1 }, sent ++ info_for p r b s c ∷ [])
  unfolding relay_block
  relay_block-run p r b aliased c s bc' sent e e' = rw (e, relay_block) (rw e' refl)

  module _ (get_digest : Request → Bytes) (d : Bytes) where
    abbrev commits_in : List Out → ℕ
    commits_in outs = count (is_commit_of d) outs

    relays-quiet :
        (f : ℕ → Payload) (sids : List ℕ)
        → commits_in (map (λ sid. Out.to_leader sid (f sid)) sids) ≡ 0
    relays-quiet f [] = refl
    relays-quiet f (sid ∷ sids) = omega (arith, relays-quiet f sids)

    send_relays-quiet :
        (p : PbftState) (b : Block) (bc bc' : BlockChain be) (outs : List Out)
        → send_relays be prover p b bc ≡ some (bc', outs)
        → commits_in outs ≡ 0
    unfolding send_relays relay_msg_send relay_with_proof_send
    send_relays-quiet p b bc bc' outs h = ground (
      arith,
      h,
      relays-quiet (λ sid. Payload.relay (relay_msg_for be p bc.txpool sid))
          (other_shards be p.shard_id bc.chain_config.shard_nums 0),
      relays-quiet
          (λ sid. Payload.relay_with_proof (relay_msg_for be p bc.txpool sid) (
            tx_proof_batch_generate_on_block be prover
              (map (λ tx. tx.tx_hash) (relays_of bc.txpool sid)) b))
          (other_shards be p.shard_id bc.chain_config.shard_nums 0),
    )

    relay_block-quiet :
        (p : PbftState) (r : Request) (b : Block) (aliased : Bool) (c c' : Chain be)
        (outs : List Out)
        → relay_block be prover size_of p r b aliased c ≡ some (c', outs)
        → commits_in outs ≡ 0
    unfolding relay_block
    relay_block-quiet p r b aliased c c' outs h =
        go (sort_txs be c.bc p.shard_id b.body (unsorted be c.bc.txpool)) refl
      where
        go :
            (x : Option Sorted)
            → sort_txs be c.bc p.shard_id b.body (unsorted be c.bc.txpool) ≡ x
            → commits_in outs ≡ 0
        go none e = ground (arith, h, e)
        go (some s) e = inner (send_relays be prover p (record b { body = s.body }) bc) refl
          where
            bc : BlockChain be
            bc = sorted_chain be prover size_of b s aliased c.bc

            inner :
                (x : Option (BlockChain be × List Out))
                → send_relays be prover p (record b { body = s.body }) bc ≡ x
                → commits_in outs ≡ 0
            inner none e' = ground (arith, h, e, e')
            inner (some (bc', sent)) e' =
                let out : some outs ≡ some (sent ++ info_for p r b s c ∷ []) =
                  ap (λ x. elim x [ none ↦ none | some (_, o) ↦ some o ])
                    (sym h ∙ relay_block-run p r b aliased c s bc' sent e e') in
                ground (
                  arith,
                  out,
                  send_relays-quiet p (record b { body = s.body }) bc bc' sent e',
                  count-append (is_commit_of d) sent (info_for p r b s c ∷ []),
                )

    handle_in_commit-quiet :
        (p : PbftState) (c c' : Chain be) (msg : Commit) (outs : List Out)
        → handle_in_commit be prover size_of p c msg ≡ some (c', outs)
        → commits_in outs ≡ 0
    unfolding handle_in_commit
    handle_in_commit-quiet p c c' msg outs h = go (lookup msg.digest p.request_pool) refl
      where
        go : (x : Option Request) → lookup msg.digest p.request_pool ≡ x → commits_in outs ≡ 0
        go none e = ground (arith, h, e)
        go (some r) e = inner (add_block be c.bc b) refl
          where
            b : Block
            b = be.codec.decode_b r.content

            inner : (x : Option (BlockChain be)) → add_block be c.bc b ≡ x → commits_in outs ≡ 0
            inner none e' = ground (arith, h, e, e')
            inner (some bc) e' = ground (
              arith,
              h,
              e,
              e',
              relay_block-quiet p r b (takes_block be c.bc b) (record c { bc = bc }) c' outs,
            )

    handle_in_propose-quiet :
        (p : PbftState) (c c' : Chain be) (outs : List Out) (r : Request)
        → handle_in_propose be prover size_of p c ≡ some (c', outs, r)
        → commits_in outs ≡ 0
    unfolding handle_in_propose
    handle_in_propose-quiet p c c' outs r h =
        ground
          (arith, h, Option-cases (generate_block be size_of (read_time c.clock).0 c.bc p.node_id))

  -- The relay module sends no consensus message of its own.
  pub relay_module-IsQuiet :
      (get_digest : Request → Bytes) → IsQuiet (Chain be) relay_module get_digest
  unfolding relay_module
  relay_module-IsQuiet get_digest = record {
    in_propose = λ d p c c' outs r h. handle_in_propose-quiet get_digest d p c c' outs r h;
    in_commit = λ d p c c' msg outs h. handle_in_commit-quiet get_digest d p c c' msg outs h;
  }

  pub relay_module-calm :
      (p : PbftState) (c : Chain be) (m : Prepare) → relay_module.handle_in_prepare p c m ≡ some c
  unfolding relay_module handle_in_prepare
  relay_module-calm p c m = refl
