-- ===== src/Pbft/Safety.antt =====
-- The commits of messageHandle.go (handleCommit).
use blockchain_sharding.Base.{
  ℕ, ◌+◌, ◌≡◌, ◌≤◌, ◌⊎◌, true, false, some, Bytes, lookup, lookup_or, contains, nat_eq, bytes_eq,
  bytes_beq_iff, u64, arith, Option-cases, lookup-insert,
}
use blockchain_sharding.Pbft.Messages.{Request, Commit}
use blockchain_sharding.Pbft.Node.{Node}
use blockchain_sharding.Pbft.Interface.{ExtraOpInConsensus}
use blockchain_sharding.Pbft.Handlers.{
  ran, quorum, vote_commit, commit_votes, handle_commit, accept_commit, commit_request,
  ask_for_blocks,
}

module _ (M : Type 0) (ihm : ExtraOpInConsensus M) (get_digest : Request → Bytes) where
  abbrev pub Keeps : Node M → Node M → Type 0
  Keeps n n' = (n'.pbft.sequence_id ≡ n.pbft.sequence_id) × (n'.chain ≡ n.chain)

  -- The node commits the request of a digest that a quorum has voted for.
  abbrev pub Advances : Commit → Node M → Node M → Type 0
  Advances msg n n' =
      (n'.pbft.sequence_id ≡ u64 (n.pbft.sequence_id + 1))
      × (contains msg.digest n.pbft.request_pool ≡ true)
      × (lookup_or msg.digest false n.pbft.is_reply ≡ false)
      × (lookup msg.digest n'.pbft.is_reply ≡ some true)
      × (quorum n.pbft ≤ commit_votes n'.pbft msg.digest)

  commit_request-Commits :
      (now : ℕ) (msg : Commit) (n n' : Node M)
      → commit_request M ihm get_digest now msg n ≡ some (ran n')
      → (n'.pbft.sequence_id ≡ u64 (n.pbft.sequence_id + 1))
        × (lookup msg.digest n'.pbft.is_reply ≡ some true)
        × (n'.pbft.cnt_commit_confirm ≡ n.pbft.cnt_commit_confirm)
  unfolding commit_request
  commit_request-Commits now msg n n' h = ground (
    arith,
    Option-cases (ihm.handle_in_commit n.pbft n.chain msg),
    lookup-insert msg.digest msg.digest true n.pbft.is_reply,
    bytes_beq_iff msg.digest msg.digest,
  )

  ask_for_blocks-keeps :
      (now : ℕ) (msg : Commit) (n n' : Node M)
      → ask_for_blocks M ihm get_digest now msg n ≡ some (ran n')
      → (n'.pbft.sequence_id ≡ n.pbft.sequence_id) × (n'.chain ≡ n.chain)
  unfolding ask_for_blocks
  ask_for_blocks-keeps now msg n n' h = ground arith

  accept_commit-Commits :
      (now : ℕ) (msg : Commit) (n n' : Node M)
      → accept_commit M ihm get_digest now msg n ≡ some (ran n')
      → Keeps n n' ⊎ Advances msg n n'
  unfolding accept_commit vote_commit
  accept_commit-Commits now msg n n' h =
      let voted : Node M = record n { pbft = vote_commit msg.digest n.pbft } in
      ground (arith, commit_request-Commits now msg voted n', ask_for_blocks-keeps now msg voted n')

  -- A commit message either leaves the chain and the sequence number alone, or it is for the
  -- current sequence number or a later one, reaches a node in stage 3 or later, and finds a quorum
  -- of commit votes for its digest, whose request the node has and has not committed before; then
  -- the sequence number advances by one and the digest is marked as committed.
  pub handle_commit-Commits :
      (cur_view now : ℕ) (msg : Commit) (n n' : Node M)
      → handle_commit M ihm get_digest cur_view now msg n ≡ some (ran n')
      → Keeps n n'
        ⊎ (Advances msg n n' × (n.pbft.sequence_id ≤ msg.seq_id) × (3 ≤ n.pbft.pbft_stage))
  unfolding handle_commit
  handle_commit-Commits cur_view now msg n n' h = ground (arith, accept_commit-Commits now msg n n')
