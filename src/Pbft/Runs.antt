-- ===== src/Pbft/Runs.antt =====
-- The steps of a node and its runs: every handler of messageHandle.go and view_change.go, the rounds
-- of proposing and of the monitor (messageHandle.go, Propose), and what the messages of the outside
-- modules change. A handler that panics, or that waits, is no step.
use blockchain_sharding.Base.{ℕ, ◌≡◌, Bool, some, Dict, Bytes}
use blockchain_sharding.Pbft.Messages.{
  Request, PrePrepare, Prepare, Commit, RequestOldMessage, SendOldMessage, ViewChangeMsg,
  NewViewMsg,
}
use blockchain_sharding.Pbft.Node.{PbftState, Node}
use blockchain_sharding.Pbft.Interface.{ExtraOpInConsensus}
use blockchain_sharding.Pbft.Handlers.{
  ran, stuck, propose, handle_pre_prepare, handle_prepare, handle_commit,
}
use blockchain_sharding.Pbft.CatchUp.{handle_request_old_seq, handle_send_old_seq}
use blockchain_sharding.Pbft.ViewChange.{
  view_change_propose, handle_view_change_msg, handle_new_view_msg,
}
use blockchain_sharding.Pbft.Monitor.{Watch, Watched, watch_round}
use blockchain_sharding.Relay.Inside.{Clock}

module _ (M : Type 0) (ihm : ExtraOpInConsensus M) (get_digest : Request → Bytes) where
  pub data Step (n n' : Node M) : Type 0 where
    proposes : propose M ihm get_digest n ≡ some (ran n') → Step n n'
    pre_prepares :
        (cur_view : ℕ) (msg : PrePrepare)
        → handle_pre_prepare M ihm get_digest cur_view msg n ≡ some (ran n')
        → Step n n'
    prepares :
        (cur_view : ℕ) (msg : Prepare)
        → handle_prepare M ihm get_digest cur_view msg n ≡ some (ran n')
        → Step n n'
    commits :
        (cur_view now : ℕ) (msg : Commit)
        → handle_commit M ihm get_digest cur_view now msg n ≡ some (ran n')
        → Step n n'
    gets_stuck :
        (cur_view now : ℕ) (msg : Commit)
        → handle_commit M ihm get_digest cur_view now msg n ≡ some (stuck n')
        → Step n n'
    answers :
        (rom : RequestOldMessage)
        → handle_request_old_seq M ihm get_digest rom n ≡ some n'
        → Step n n'
    catches_up :
        (som : SendOldMessage) → handle_send_old_seq M ihm get_digest som n ≡ some n' → Step n n'
    asks_for_view :
        (p : PbftState)
        → view_change_propose n.pbft ≡ some p
        → n' ≡ record n { pbft = p }
        → Step n n'
    votes_for_view :
        (msg : ViewChangeMsg) (p : PbftState)
        → handle_view_change_msg msg n.pbft ≡ some p
        → n' ≡ record n { pbft = p }
        → Step n n'
    takes_view :
        (now : ℕ) (msg : NewViewMsg)
        → n' ≡ record n { pbft = handle_new_view_msg now msg n.pbft }
        → Step n n'
    watches :
        (timeout : ℕ) (on late : Bool) (w : Watch) (c : Clock) (s : Watched)
        → watch_round timeout on (record { watch = w; pbft = n.pbft; clock = c }) ≡ some (s, late)
        → n' ≡ record n { pbft = s.pbft }
        → Step n n'
    hears :
        (ids : Dict ℕ ℕ) (c : M)
        → n' ≡ record { pbft = record (n.pbft) { seq_id_map = ids }; chain = c }
        → Step n n'

  pub data Reach (n : Node M) : Node M → Type 0 where
    here : Reach n n
    next : {m k : Node M} → Reach n m → Step m k → Reach n k
