-- ===== src/Pbft/Once.antt =====
-- The commit broadcasts of pbft.go and messageHandle.go, counted for each digest along a run.
use blockchain_sharding.Base.{
  sym, subst, ℕ, ◌≡◌, ◌≤◌, ◌⊎◌, inl, inr, refl, Bool, true, Option, none, some, List, [], ◌∷◌,
  Bytes, nat_eq, bytes_eq, bytes_beq_iff, arith, Option-cases, lookup-insert, count, count-append,
}
use blockchain_sharding.Pbft.Messages.{NodeInfo, Request, PrePrepare, Prepare, Commit, Out, Payload}
use blockchain_sharding.Pbft.Node.{PbftState, Node}
use blockchain_sharding.Pbft.Interface.{ExtraOpInConsensus}
use blockchain_sharding.Pbft.Handlers.{
  Outcome, waits, ran, stuck, vote_prepare, vote_commit, propose, handle_pre_prepare,
  accept_pre_prepare, handle_prepare, accept_prepare, try_commit, handle_commit, accept_commit,
  commit_request, ask_for_blocks,
}
use blockchain_sharding.Params.{ChainConfig}
use blockchain_sharding.Pbft.Node.{new_pbft_state}
use blockchain_sharding.Pbft.Marks.{
  is_commit_of, Marks, answer-Marks, catch_up-Marks, asks-Marks, votes-Marks, takes-Marks,
  watch-Marks,
}
use blockchain_sharding.Pbft.Runs.{
  Step, proposes, pre_prepares, prepares, commits, gets_stuck, answers, catches_up, asks_for_view,
  votes_for_view, takes_view, watches, hears, Reach, here, next,
}

module _ (M : Type 0) (ihm : ExtraOpInConsensus M) (get_digest : Request → Bytes) where
  try_commit-Marks :
      (d : Bytes) (msg : Prepare) (p : PbftState)
      → Marks d p
      → Marks d (try_commit M ihm get_digest msg p)
  unfolding try_commit
  try_commit-Marks d msg p h = ground (
    arith,
    h,
    lookup-insert msg.digest d true p.is_commit_broadcast,
    bytes_beq_iff msg.digest d,
    count-append (is_commit_of d) p.sent (
        Out.to_shard (
          Payload.commit
            (record { digest = msg.digest; seq_id = msg.seq_id; sender_node = p.running_node }))
        ∷ []),
  )

  -- The module itself sends no consensus message.
  pub record IsQuiet : Type 0 where
    pub in_propose :
        (d : Bytes) (p : PbftState) (c c' : M) (outs : List Out) (r : Request)
        → ihm.handle_in_propose p c ≡ some (c', outs, r)
        → count (is_commit_of d) outs ≡ 0
    pub in_commit :
        (d : Bytes) (p : PbftState) (c c' : M) (msg : Commit) (outs : List Out)
        → ihm.handle_in_commit p c msg ≡ some (c', outs)
        → count (is_commit_of d) outs ≡ 0

  module _ (quiet : IsQuiet) (d : Bytes) where
    propose-Marks :
        (n n' : Node M)
        → propose M ihm get_digest n ≡ some (ran n')
        → Marks d n.pbft
        → Marks d n'.pbft
    unfolding propose
    propose-Marks n n' e h = go (ihm.handle_in_propose locked n.chain) refl
      where
        locked : PbftState
        locked = record (n.pbft) { sequence_lock = true }

        go :
            (r : Option (M × List Out × Request))
            → ihm.handle_in_propose locked n.chain ≡ r
            → Marks d n'.pbft
        go none e' = ground (arith, h)
        go (some (c, outs, r)) e' =
            grind (arith, h, quiet.in_propose d locked n.chain c outs r e', count-append)

    pre_prepare-Marks :
        (v : ℕ) (msg : PrePrepare) (n n' : Node M)
        → handle_pre_prepare M ihm get_digest v msg n ≡ some (ran n')
        → Marks d n.pbft
        → Marks d n'.pbft
    unfolding handle_pre_prepare accept_pre_prepare
    pre_prepare-Marks v msg n n' e h = go (ihm.handle_in_pre_prepare n.pbft n.chain msg) refl
      where
        go :
            (r : Option (M × Bool))
            → ihm.handle_in_pre_prepare n.pbft n.chain msg ≡ r
            → Marks d n'.pbft
        go none e' = ground (arith, h)
        go (some (c, flag)) e' = grind (arith, h, count-append)

    prepare-Marks :
        (v : ℕ) (msg : Prepare) (n n' : Node M)
        → handle_prepare M ihm get_digest v msg n ≡ some (ran n')
        → Marks d n.pbft
        → Marks d n'.pbft
    unfolding handle_prepare accept_prepare vote_prepare
    prepare-Marks v msg n n' e h = ground (
      arith,
      h,
      Option-cases (ihm.handle_in_prepare n.pbft n.chain msg),
      try_commit-Marks d msg (vote_prepare msg.digest n.pbft),
    )

    commit_request-Marks :
        (now : ℕ) (msg : Commit) (n n' : Node M)
        → commit_request M ihm get_digest now msg n ≡ some (ran n')
        → Marks d n.pbft
        → Marks d n'.pbft
    unfolding commit_request
    commit_request-Marks now msg n n' e h = go (ihm.handle_in_commit n.pbft n.chain msg) refl
      where
        go :
            (r : Option (M × List Out))
            → ihm.handle_in_commit n.pbft n.chain msg ≡ r
            → Marks d n'.pbft
        go none e' = ground (arith, h)
        go (some (c, outs)) e' = ground (
          arith,
          h,
          quiet.in_commit d n.pbft n.chain c msg outs e',
          count-append (is_commit_of d) n.pbft.sent outs,
        )

    -- The state that an attempt leaves behind, whether or not it ran to its end.
    abbrev pub LeavesMarks : Node M → Option (Outcome M) → Type 0
    LeavesMarks n none = Unit
    LeavesMarks n (some waits) = Unit
    LeavesMarks n (some (ran n')) = Marks d n'.pbft
    LeavesMarks n (some (stuck n')) = Marks d n'.pbft

    commit_request-LeavesMarks :
        (now : ℕ) (msg : Commit) (n : Node M)
        → Marks d n.pbft
        → (r : Option (Outcome M)) → commit_request M ihm get_digest now msg n ≡ r
        → LeavesMarks n r
    unfolding commit_request
    commit_request-LeavesMarks now msg n h none e = tt
    commit_request-LeavesMarks now msg n h (some waits) e = tt
    commit_request-LeavesMarks now msg n h (some (ran n')) e = commit_request-Marks now msg n n' e h
    commit_request-LeavesMarks now msg n h (some (stuck n')) e =
        ground (arith, Option-cases (ihm.handle_in_commit n.pbft n.chain msg))

    ask_for_blocks-Marks :
        (now : ℕ) (msg : Commit) (n n' : Node M)
        → (ask_for_blocks M ihm get_digest now msg n ≡ some (ran n'))
          ⊎ (ask_for_blocks M ihm get_digest now msg n ≡ some (stuck n'))
        → Marks d n.pbft
        → Marks d n'.pbft
    unfolding ask_for_blocks
    ask_for_blocks-Marks now msg n n' e h = grind (arith, h, count-append)

    accept_commit-Marks :
        (now : ℕ) (msg : Commit) (n n' : Node M)
        → (accept_commit M ihm get_digest now msg n ≡ some (ran n'))
          ⊎ (accept_commit M ihm get_digest now msg n ≡ some (stuck n'))
        → Marks d n.pbft
        → Marks d n'.pbft
    unfolding accept_commit vote_commit
    accept_commit-Marks now msg n n' e h =
        let voted : Node M = record n { pbft = vote_commit msg.digest n.pbft } in
        ground (
          arith,
          ask_for_blocks-Marks now msg voted n',
          commit_request-LeavesMarks now msg voted h (some (ran n')),
          commit_request-LeavesMarks now msg voted h (some (stuck n')),
        )

    commit-Marks :
        (v now : ℕ) (msg : Commit) (n n' : Node M)
        → (handle_commit M ihm get_digest v now msg n ≡ some (ran n'))
          ⊎ (handle_commit M ihm get_digest v now msg n ≡ some (stuck n'))
        → Marks d n.pbft
        → Marks d n'.pbft
    unfolding handle_commit
    commit-Marks v now msg n n' e h = ground (arith, h, accept_commit-Marks now msg n n')

    Step-Marks : (n n' : Node M) → Step M ihm get_digest n n' → Marks d n.pbft → Marks d n'.pbft
    Step-Marks n n' (proposes e) h = propose-Marks n n' e h
    Step-Marks n n' (pre_prepares v msg e) h = pre_prepare-Marks v msg n n' e h
    Step-Marks n n' (prepares v msg e) h = prepare-Marks v msg n n' e h
    Step-Marks n n' (commits v now msg e) h = commit-Marks v now msg n n' (inl e) h
    Step-Marks n n' (gets_stuck v now msg e) h = commit-Marks v now msg n n' (inr e) h
    Step-Marks n n' (answers rom e) h = answer-Marks M ihm get_digest d rom n n' e h
    Step-Marks n n' (catches_up som e) h = catch_up-Marks M ihm get_digest d som n n' e h
    Step-Marks n n' (asks_for_view p e same) h =
        subst (λ (m : Node M). Marks d m.pbft) (sym same) (asks-Marks d n.pbft p e h)
    Step-Marks n n' (votes_for_view msg p e same) h =
        subst (λ (m : Node M). Marks d m.pbft) (sym same) (votes-Marks d msg n.pbft p e h)
    Step-Marks n n' (takes_view now msg same) h =
        subst (λ (m : Node M). Marks d m.pbft) (sym same) (takes-Marks d now msg n.pbft h)
    Step-Marks n n' (watches timeout on late w c s e same) h =
        subst (λ (m : Node M). Marks d m.pbft) (sym same)
          (watch-Marks d timeout on late (record { watch = w; pbft = n.pbft; clock = c }) s e h)
    Step-Marks n n' (hears ids c same) h = subst (λ (m : Node M). Marks d m.pbft) (sym same) h

    Reach-Marks : {n n' : Node M} → Reach M ihm get_digest n n' → Marks d n.pbft → Marks d n'.pbft
    Reach-Marks here h = h
    Reach-Marks (next {m} {k} r s) h = Step-Marks m k s (Reach-Marks r h)

    -- A new node, whose message module sends no commit messages of its own, broadcasts at most one
    -- commit for a digest, in any run of proposals, messages of the three phases, requests for old
    -- blocks and answers to them, view changes, rounds of the monitor, and changes that the outside
    -- module's messages make to the chain and to the sequence numbers of the other shards.
    pub commit_broadcast_once :
        (info : NodeInfo) (leader_ip : ℕ → Bytes) (pcc : ChainConfig) (height now : ℕ) (c : M)
        (n' : Node M)
        → Reach M ihm get_digest
            (record { pbft = new_pbft_state info leader_ip pcc height now; chain = c })
            n'
        → count (is_commit_of d) n'.pbft.sent ≤ 1
    unfolding new_pbft_state
    commit_broadcast_once info leader_ip pcc height now c n' r = ground (arith, Reach-Marks r refl)
