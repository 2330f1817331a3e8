-- ===== src/Relay/Skipping.antt =====
-- A relay node that lacks the request of its current height (messageHandle.go: handleCommit,
-- handleRequestOldSeq, handleSendOldSeq).
use blockchain_sharding.Base.{ℕ, ◌+◌, ◌≡◌, Bytes, u64}
use blockchain_sharding.Chain.Backend.{Backend}
use blockchain_sharding.Chain.Proof.{Prover}
use blockchain_sharding.Pbft.Messages.{Request, RequestOldMessage, SendOldMessage}
use blockchain_sharding.Pbft.Node.{PbftState, Node}
use blockchain_sharding.Pbft.CatchUp.{old_requests, heights_asked}
use blockchain_sharding.Relay.Inside.{Chain}

module _ (be : Backend) (prover : Prover be) (size_of : ℕ) (get_digest : Request → Bytes) where
  -- What a leader in state `p` answers to a request.
  abbrev pub answer : PbftState → RequestOldMessage → SendOldMessage
  answer p rom = record {
    seq_start_height = rom.seq_start_height;
    seq_end_height = rom.seq_end_height;
    old_request = old_requests (heights_asked rom) rom.seq_start_height p;
    sender_node = p.running_node;
  }

  abbrev pub Same : Node (Chain be) → Node (Chain be) → Type 0
  Same n n' =
      (n'.chain ≡ n.chain)
      × (n'.pbft.sequence_id ≡ n.pbft.sequence_id)
      × (n'.pbft.ask_for_lock ≡ n.pbft.ask_for_lock)

  -- The state of the node that has taken an answer without requests.
  abbrev pub moved_on : Node (Chain be) → Node (Chain be)
  moved_on n = record n { pbft = record (n.pbft) { sequence_id = u64 (n.pbft.sequence_id + 1) } }
