-- ===== src/Relay/Messages.antt =====
-- The messages that the leader of a shard sends for a block that it has committed
-- (pbftInside_module.go, `RelayMsgSend`).
use blockchain_sharding.Base.{ℕ, List, map}
use blockchain_sharding.Core.Transaction.{Transaction}
use blockchain_sharding.Core.Block.{Block}
use blockchain_sharding.Chain.Backend.{Backend}
use blockchain_sharding.Chain.State.{BlockChain}
use blockchain_sharding.Chain.Proof.{Prover}
use blockchain_sharding.Pbft.Messages.{Out, Payload}
use blockchain_sharding.Pbft.Node.{PbftState}
use blockchain_sharding.Relay.Inside.{Chain, mark_relayed}
use blockchain_sharding.Relay.Sorting.{leaving_to}

module _ (be : Backend) (prover : Prover be) (size_of : ℕ) where
  -- What goes to a shard: the transactions of the body with recipients there, marked.
  abbrev pub relay_for : PbftState → BlockChain be → List Transaction → ℕ → Out
  relay_for p bc body sid = Out.to_leader sid (
      Payload.relay (record {
        txs = map (mark_relayed be) (leaving_to be bc p.shard_id sid body);
        sender_shard_id = p.shard_id;
        sender_seq = p.sequence_id;
      }))
