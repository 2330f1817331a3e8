-- ===== src/Pbft/Interface.antt =====
-- pbftMod_interface.go: the operations that a consensus node calls on its message module. `none`
-- is a panic. The module may read the whole consensus state; what it may change of it is in the
-- types: of the catch-up step the sequence number, and else only what the node has sent. (Every
-- module also enters an accepted request into the request pool, under the digest under which
-- `handlePrePrepare` enters it next in any case.)
use blockchain_sharding.Base.{ℕ, Bool, Option, List}
use blockchain_sharding.Pbft.Messages.{
  Request, PrePrepare, Prepare, Commit, RequestOldMessage, SendOldMessage, Out,
}
use blockchain_sharding.Pbft.Node.{PbftState}

pub record ExtraOpInConsensus (M : Type 0) : Type 0 where
  pub handle_in_propose : PbftState → M → Option (M × List Out × Request)
  pub handle_in_pre_prepare : PbftState → M → PrePrepare → Option (M × Bool)
  pub handle_in_prepare : PbftState → M → Prepare → Option M
  pub handle_in_commit : PbftState → M → Commit → Option (M × List Out)
  pub handle_request_for_old_seq : PbftState → M → RequestOldMessage → Option M
  -- The new chain, and the sequence number.
  pub handle_for_sequential_request : PbftState → M → SendOldMessage → Option (M × ℕ)
