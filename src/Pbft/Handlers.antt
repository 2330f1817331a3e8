-- ===== src/Pbft/Handlers.antt =====
-- messageHandle.go: proposing, and the three phases. A handler is one attempt to run it under
-- `pbftLock`: it may have to wait for its stage (it is tried again when a handler broadcasts on
-- the condition variable), run, or get stuck on a mutex that is held. `none` is a panic. The view
-- that the handler read before it took the lock is an argument.
use blockchain_sharding.Base.{
  ℕ, ◌+◌, ◌*◌, Bool, true, false, not, ◌&&◌, ◌||◌, Option, none, some, [], ◌++◌, Bytes, lookup_or,
  insert, contains, nat_eq, bytes_eq, nat_beq, bytes_beq, ltb, leb, u64, if◌then◌else◌, length,
  ◌>>=◌,
}
use blockchain_sharding.Pbft.Messages.{
  Request, PrePrepare, Prepare, Commit, RequestOldMessage, Out, Payload,
}
use blockchain_sharding.Pbft.Node.{PbftState, Node, set_2d_map, send}
use blockchain_sharding.Pbft.Interface.{ExtraOpInConsensus}

pub data Outcome (M : Type 0) : Type 0 where
  waits : Outcome M
  ran : Node M → Outcome M
  stuck : Node M → Outcome M

-- `pbftStage < stage && SeqID >= sequenceID && view == curView`
abbrev pub must_wait : ℕ → ℕ → ℕ → PbftState → Bool
must_wait stage cur_view seq_id p =
    ltb p.pbft_stage stage && leb p.sequence_id seq_id && nat_beq p.view cur_view

abbrev pub out_of_date : ℕ → ℕ → PbftState → Bool
out_of_date cur_view seq_id p = ltb seq_id p.sequence_id || not (nat_beq p.view cur_view)

-- 2 f + 1
abbrev pub quorum : PbftState → ℕ
quorum p = u64 (2 * p.malicious_nums + 1)

-- A vote is entered under the address of the sender that decoding has just allocated.
unfoldable pub vote_prepare : Bytes → PbftState → PbftState
vote_prepare digest p = record p {
  cnt_prepare_confirm = set_2d_map digest p.next_addr p.cnt_prepare_confirm;
  next_addr = p.next_addr + 1;
}

unfoldable pub vote_commit : Bytes → PbftState → PbftState
vote_commit digest p = record p {
  cnt_commit_confirm = set_2d_map digest p.next_addr p.cnt_commit_confirm;
  next_addr = p.next_addr + 1;
}

-- `len(p.cntPrepareConfirm[digest])`
abbrev pub prepare_votes : PbftState → Bytes → ℕ
prepare_votes p digest = length (lookup_or digest [] p.cnt_prepare_confirm)

abbrev pub commit_votes : PbftState → Bytes → ℕ
commit_votes p digest = length (lookup_or digest [] p.cnt_commit_confirm)

-- `sequenceLock.Unlock()` by the leader; unlocking a mutex that is not held is a fatal error.
abbrev pub release_sequence_lock : PbftState → Option PbftState
release_sequence_lock p =
    if nat_beq p.node_id p.view
    then (if p.sequence_lock then some (record p { sequence_lock = false }) else none)
    else some p

-- The request of a node that is left behind, to the leader.
abbrev pub old_request_msg : PbftState → ℕ → RequestOldMessage
old_request_msg p seq_id = record {
  seq_start_height = u64 (p.sequence_id + 1);
  seq_end_height = seq_id;
  server_node = record { node_id = p.view; shard_id = p.shard_id; ip_addr = p.leader_ip p.view };
  sender_node = p.running_node;
}

module _ (M : Type 0) (ihm : ExtraOpInConsensus M) (get_digest : Request → Bytes) where
  -- One round of `Propose` in the leader: from `sequenceLock` on.
  unfoldable pub propose : Node M → Option (Outcome M)
  propose n =
      if not (nat_beq n.pbft.view n.pbft.node_id)
      then some (ran n)
      else if n.pbft.sequence_lock
      then some waits
      else (do
        let p : PbftState = record (n.pbft) { sequence_lock = true }
        (chain, outs, r) ← ihm.handle_in_propose p n.chain
        let digest = get_digest r
        some (
            ran (record {
              pbft =
                  send
                    (Out.to_shard (
                      Payload.pre_prepare
                        (record { request_msg = r; digest = digest; seq_id = p.sequence_id })))
                    (record p {
                      request_pool = insert digest r p.request_pool;
                      height2digest = insert p.sequence_id digest p.height2digest;
                      pbft_stage = 2;
                      sent = p.sent ++ outs;
                    });
              chain = chain;
            })))

  abbrev pub pool_request : PrePrepare → PbftState → PbftState
  pool_request msg p = record p {
    request_pool = insert (get_digest msg.request_msg) msg.request_msg p.request_pool;
    height2digest = insert msg.seq_id (get_digest msg.request_msg) p.height2digest;
  }

  -- Broadcast of the prepare message, and the step into the next stage.
  abbrev pub broadcast_prepare : PrePrepare → PbftState → PbftState
  broadcast_prepare msg p =
      record (send
        (Out.to_shard (
          Payload.prepare
            (record { digest = msg.digest; seq_id = msg.seq_id; sender_node = p.running_node })))
        p) { pbft_stage = p.pbft_stage + 1 }

  -- The body of `handlePrePrepare` for a message that is not out of date.
  unfoldable pub accept_pre_prepare : PrePrepare → Node M → Option (Node M)
  accept_pre_prepare msg n =
      if not (bytes_beq (get_digest msg.request_msg) msg.digest)
      then some n
      else if ltb n.pbft.sequence_id msg.seq_id
      then some (record n { pbft = pool_request msg n.pbft })
      else (do
        (chain, flag) ← ihm.handle_in_pre_prepare n.pbft n.chain msg
        let p = pool_request msg n.pbft
        some (record { pbft = if flag then broadcast_prepare msg p else p; chain = chain }))

  unfoldable pub handle_pre_prepare : ℕ → PrePrepare → Node M → Option (Outcome M)
  unfolding accept_pre_prepare
  handle_pre_prepare cur_view msg n =
      if must_wait 1 cur_view msg.seq_id n.pbft
      then some waits
      else if out_of_date cur_view msg.seq_id n.pbft
      then some (ran n)
      else (do n' ← accept_pre_prepare msg n; some (ran n'))

  -- With a quorum of prepare votes, and once for each digest, the node broadcasts its commit.
  unfoldable pub try_commit : Prepare → PbftState → PbftState
  try_commit msg p =
      if leb (quorum p) (prepare_votes p msg.digest)
        && not (lookup_or msg.digest false p.is_commit_broadcast)
      then record (send
          (Out.to_shard (
            Payload.commit
              (record { digest = msg.digest; seq_id = msg.seq_id; sender_node = p.running_node })))
          p) {
            is_commit_broadcast = insert msg.digest true p.is_commit_broadcast;
            pbft_stage = p.pbft_stage + 1;
          }
      else p

  unfoldable pub accept_prepare : Prepare → Node M → Option (Node M)
  unfolding vote_prepare try_commit
  accept_prepare msg n =
      if not (contains msg.digest n.pbft.request_pool)
      then some n
      else if ltb n.pbft.sequence_id msg.seq_id
      then some n
      else (do
        chain ← ihm.handle_in_prepare n.pbft n.chain msg
        some (record { pbft = try_commit msg (vote_prepare msg.digest n.pbft); chain = chain }))

  unfoldable pub handle_prepare : ℕ → Prepare → Node M → Option (Outcome M)
  unfolding accept_prepare
  handle_prepare cur_view msg n =
      if must_wait 2 cur_view msg.seq_id n.pbft
      then some waits
      else if out_of_date cur_view msg.seq_id n.pbft
      then some (ran n)
      else (do n' ← accept_prepare msg n; some (ran n'))

  -- The end of a round: back to stage 1, and the leader lets the next proposal in.
  abbrev pub end_round : ℕ → PbftState → Option PbftState
  end_round now p = release_sequence_lock (record p { pbft_stage = 1; last_commit_time = now })

  -- The node has the request: the block is committed.
  unfoldable pub commit_request : ℕ → Commit → Node M → Option (Outcome M)
  commit_request now msg n = do
    (chain, outs) ← ihm.handle_in_commit n.pbft n.chain msg
    p ← end_round now (record (n.pbft) {
      is_reply = insert msg.digest true n.pbft.is_reply;
      sequence_id = u64 (n.pbft.sequence_id + 1);
      sent = n.pbft.sent ++ outs;
    })
    some (ran (record { pbft = p; chain = chain }))

  -- The node is left behind, and asks for the blocks that it lacks.
  unfoldable pub ask_for_blocks : ℕ → Commit → Node M → Option (Outcome M)
  ask_for_blocks now msg n =
      let p : PbftState = record (n.pbft) { is_reply = insert msg.digest true n.pbft.is_reply } in
      let asked =
        send (Out.to_node (p.leader_ip p.view) (Payload.request_old (old_request_msg p msg.seq_id)))
          (record p { ask_for_lock = true }) in
      if p.ask_for_lock
      then some (stuck (record n { pbft = p }))
      else (do p' ← end_round now asked; some (ran (record n { pbft = p' })))

  unfoldable pub accept_commit : ℕ → Commit → Node M → Option (Outcome M)
  unfolding vote_commit commit_request ask_for_blocks
  accept_commit now msg n =
      let n' : Node M = record n { pbft = vote_commit msg.digest n.pbft } in
      if leb (quorum n'.pbft) (commit_votes n'.pbft msg.digest)
        && not (lookup_or msg.digest false n'.pbft.is_reply)
      then (if contains msg.digest n'.pbft.request_pool
          then commit_request now msg n'
          else ask_for_blocks now msg n')
      else some (ran n')

  unfoldable pub handle_commit : ℕ → ℕ → Commit → Node M → Option (Outcome M)
  unfolding accept_commit
  handle_commit cur_view now msg n =
      if must_wait 3 cur_view msg.seq_id n.pbft
      then some waits
      else if out_of_date cur_view msg.seq_id n.pbft
      then some (ran n)
      else accept_commit now msg n
