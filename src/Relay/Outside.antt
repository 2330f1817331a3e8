-- ===== src/Relay/Outside.antt =====
-- pbftOutside_module.go: relayed transactions, with or without proofs, and injected ones. `none`
-- is a panic. A message is decoded.
use blockchain_sharding.Base.{
  ◌+◌, Bool, true, false, Option, none, some, List, [], ◌∷◌, insert, nat_eq, if◌then◌else◌, length,
}
use blockchain_sharding.Core.Transaction.{Transaction}
use blockchain_sharding.Chain.Backend.{Backend}
use blockchain_sharding.Chain.Proof.{TxProofResult}
use blockchain_sharding.Chain.Blocks.{send_tx_to_pool}
use blockchain_sharding.Chain.Proof.{Prover}
use blockchain_sharding.Chain.Merkle.{tx_proof_verify}
use blockchain_sharding.Pbft.Messages.{RelayMsg}
use blockchain_sharding.Pbft.Node.{PbftState, Node}
use blockchain_sharding.Relay.Inside.{Chain}

-- `CRelay`, `CRelayWithProof`, `CInject`, and any other type, which is ignored.
pub data OutsideMsg : Type 0 where
  relay : RelayMsg → OutsideMsg
  relay_with_proof : RelayMsg → List TxProofResult → OutsideMsg
  inject : List Transaction → OutsideMsg
  other : OutsideMsg

module _ (be : Backend) (prover : Prover be) where
  -- `AddTxs2Pool`, which reads the time once for each transaction.
  unfoldable pub pool_txs : List Transaction → Chain be → Chain be
  pool_txs txs c = record {
    bc = send_tx_to_pool be (λ i. c.clock.at (c.clock.reads + i)) c.bc txs;
    clock = record (c.clock) { reads = c.clock.reads + length txs };
  }

  -- `seqIDMap[relay.SenderShardID] = relay.SenderSeq`
  abbrev pub note_seq : RelayMsg → PbftState → PbftState
  note_seq msg p = record p { seq_id_map = insert msg.sender_shard_id msg.sender_seq p.seq_id_map }

  unfoldable pub handle_relay : RelayMsg → Node (Chain be) → Node (Chain be)
  unfolding pool_txs
  handle_relay msg n = record { pbft = note_seq msg n.pbft; chain = pool_txs msg.txs n.chain }

  -- The loop over the proofs, up to the first that fails; a missing proof is a panic.
  unfoldable pub all_correct : List Transaction → List TxProofResult → Option Bool
  all_correct [] proofs = some true
  all_correct (tx ∷ txs) [] = none
  all_correct (tx ∷ txs) (proof ∷ proofs) =
      let rest = all_correct txs proofs in
      elim (tx_proof_verify be prover tx.tx_hash proof) [
        | none ↦ none
        | some ok ↦ if ok then rest else some false
      ]

  unfoldable pub handle_relay_with_proof :
      RelayMsg → List TxProofResult → Node (Chain be) → Option (Node (Chain be))
  unfolding all_correct pool_txs
  handle_relay_with_proof msg proofs n = elim (all_correct msg.txs proofs) [
    | none ↦ none
    | some ok ↦ some (record {
      pbft = note_seq msg n.pbft;
      chain = if ok then pool_txs msg.txs n.chain else n.chain;
    })
  ]

  unfoldable pub handle_inject_tx : List Transaction → Node (Chain be) → Node (Chain be)
  unfolding pool_txs
  handle_inject_tx txs n = record n { chain = pool_txs txs n.chain }

  unfoldable pub handle_message_outside_pbft :
      OutsideMsg → Node (Chain be) → Option (Node (Chain be))
  unfolding handle_relay handle_relay_with_proof handle_inject_tx
  handle_message_outside_pbft (relay msg) n = some (handle_relay msg n)
  handle_message_outside_pbft (relay_with_proof msg proofs) n = handle_relay_with_proof msg proofs n
  handle_message_outside_pbft (inject txs) n = some (handle_inject_tx txs n)
  handle_message_outside_pbft other n = some n
