-- ===== src/Pbft/Committed.antt =====
-- The digests that a node has marked as committed (`isReply` of pbft.go) along its runs.
use blockchain_sharding.Base.{
  ℕ, ◌+◌, ◌≤◌, ◌≡◌, ◌⊎◌, inl, inr, refl, sym, subst, true, Bool, Option, none, some, List, [], ◌∷◌,
  Bytes, lookup, nat_eq, bytes_eq, u64, arith, Option-cases, lookup-insert,
}
use blockchain_sharding.Pbft.Messages.{
  Request, PrePrepare, Prepare, Commit, RequestOldMessage, SendOldMessage, ViewChangeMsg,
  NewViewMsg,
}
use blockchain_sharding.Pbft.Node.{PbftState, Node}
use blockchain_sharding.Pbft.Interface.{ExtraOpInConsensus}
use blockchain_sharding.Pbft.Handlers.{
  ran, stuck, vote_prepare, vote_commit, propose, handle_pre_prepare, accept_pre_prepare,
  handle_prepare, accept_prepare, try_commit, handle_commit, accept_commit, commit_request,
  ask_for_blocks,
}
use blockchain_sharding.Pbft.CatchUp.{
  handle_request_old_seq, handle_send_old_seq, take_old_requests, prepare_pooled, request_at,
}
use blockchain_sharding.Pbft.ViewChange.{
  view_change_propose, handle_view_change_msg, handle_new_view_msg,
}
use blockchain_sharding.Pbft.Monitor.{
  Watched, watch_round, reset_stage, force_release, check_commit_time,
}
use blockchain_sharding.Pbft.Runs.{
  Step, proposes, pre_prepares, prepares, commits, gets_stuck, answers, catches_up, asks_for_view,
  votes_for_view, takes_view, watches, hears, Reach, here, next,
}
use blockchain_sharding.Pbft.Safety.{Keeps, Advances, handle_commit-Commits}

abbrev pub IsReplied : Bytes → PbftState → Type 0
IsReplied d p = lookup d p.is_reply ≡ some true

watch-IsReplied :
    (d : Bytes) (timeout : ℕ) (on late : Bool) (s s' : Watched)
    → watch_round timeout on s ≡ some (s', late)
    → IsReplied d s.pbft
    → IsReplied d s'.pbft
unfolding watch_round reset_stage force_release check_commit_time
watch-IsReplied d timeout on late s s' e h = ground (arith, h)

view-IsReplied :
    (d : Bytes) (msg : ViewChangeMsg) (p p' : PbftState)
    → (view_change_propose p ≡ some p') ⊎ (handle_view_change_msg msg p ≡ some p')
    → IsReplied d p
    → IsReplied d p'
unfolding view_change_propose handle_view_change_msg
view-IsReplied d msg p p' e h = ground (arith, e, h)

takes-IsReplied :
    (d : Bytes) (now : ℕ) (msg : NewViewMsg) (p : PbftState)
    → IsReplied d p
    → IsReplied d (handle_new_view_msg now msg p)
unfolding handle_new_view_msg
takes-IsReplied d now msg p h = ground (arith, h)

module _ (M : Type 0) (ihm : ExtraOpInConsensus M) (get_digest : Request → Bytes) (d : Bytes) where
  propose-IsReplied :
      (n n' : Node M)
      → propose M ihm get_digest n ≡ some (ran n')
      → IsReplied d n.pbft
      → IsReplied d n'.pbft
  unfolding propose
  propose-IsReplied n n' e h = ground (
    arith,
    h,
    Option-cases (ihm.handle_in_propose (record (n.pbft) { sequence_lock = true }) n.chain),
  )

  pre_prepare-IsReplied :
      (v : ℕ) (msg : PrePrepare) (n n' : Node M)
      → handle_pre_prepare M ihm get_digest v msg n ≡ some (ran n')
      → IsReplied d n.pbft
      → IsReplied d n'.pbft
  unfolding handle_pre_prepare accept_pre_prepare
  pre_prepare-IsReplied v msg n n' e h =
      ground (arith, h, Option-cases (ihm.handle_in_pre_prepare n.pbft n.chain msg))

  prepare-IsReplied :
      (v : ℕ) (msg : Prepare) (n n' : Node M)
      → handle_prepare M ihm get_digest v msg n ≡ some (ran n')
      → IsReplied d n.pbft
      → IsReplied d n'.pbft
  unfolding handle_prepare accept_prepare vote_prepare try_commit
  prepare-IsReplied v msg n n' e h =
      ground (arith, h, Option-cases (ihm.handle_in_prepare n.pbft n.chain msg))

  commit-IsReplied :
      (v now : ℕ) (msg : Commit) (n n' : Node M)
      → (handle_commit M ihm get_digest v now msg n ≡ some (ran n'))
        ⊎ (handle_commit M ihm get_digest v now msg n ≡ some (stuck n'))
      → IsReplied d n.pbft
      → IsReplied d n'.pbft
  unfolding handle_commit accept_commit vote_commit commit_request ask_for_blocks
  commit-IsReplied v now msg n n' e h = ground (
    arith,
    h,
    e,
    Option-cases (ihm.handle_in_commit (vote_commit msg.digest n.pbft) n.chain msg),
    lookup-insert msg.digest d true n.pbft.is_reply,
  )

  answer-IsReplied :
      (rom : RequestOldMessage) (n n' : Node M)
      → handle_request_old_seq M ihm get_digest rom n ≡ some n'
      → IsReplied d n.pbft
      → IsReplied d n'.pbft
  unfolding handle_request_old_seq
  answer-IsReplied rom n n' e h =
      ground (arith, h, Option-cases (ihm.handle_request_for_old_seq n.pbft n.chain rom))

  pub take_old_requests-IsReplied :
      (rs : List Request) (height : ℕ) (p : PbftState)
      → IsReplied d p
      → IsReplied d (take_old_requests M ihm get_digest rs height p)
  unfolding take_old_requests
  take_old_requests-IsReplied [] height p h = h
  take_old_requests-IsReplied (r ∷ rs) height p h =
      take_old_requests-IsReplied rs (u64 (height + 1)) _
        (ground (arith, h, lookup-insert (get_digest r) d true p.is_reply))

  prepare_pooled-IsReplied :
      (n n' : Node M)
      → prepare_pooled M ihm get_digest n ≡ some n'
      → IsReplied d n.pbft
      → IsReplied d n'.pbft
  unfolding prepare_pooled
  prepare_pooled-IsReplied n n' e h = go (request_at n.pbft.sequence_id n.pbft) refl
    where
      go : (r : Option Request) → request_at n.pbft.sequence_id n.pbft ≡ r → IsReplied d n'.pbft
      go none e' = ground (arith, h, e, e')
      go (some r) e' = ground (
        arith,
        h,
        e,
        e',
        Option-cases (
            ihm.handle_in_pre_prepare n.pbft n.chain
              (record { request_msg = r; digest = get_digest r; seq_id = n.pbft.sequence_id })),
      )

  catch_up-IsReplied :
      (som : SendOldMessage) (n n' : Node M)
      → handle_send_old_seq M ihm get_digest som n ≡ some n'
      → IsReplied d n.pbft
      → IsReplied d n'.pbft
  unfolding handle_send_old_seq
  catch_up-IsReplied som n n' e h = go (ihm.handle_for_sequential_request n.pbft n.chain som) refl
    where
      taken : M → Node M
      taken c = record {
        pbft =
            record (take_old_requests M ihm get_digest som.old_request som.seq_start_height
              n.pbft) { sequence_id = u64 (som.seq_end_height + 1) };
        chain = c;
      }

      go :
          (r : Option (M × ℕ))
          → ihm.handle_for_sequential_request n.pbft n.chain som ≡ r
          → IsReplied d n'.pbft
      go none e' = ground (arith, e, e')
      go (some (c, seq)) e' = inner (prepare_pooled M ihm get_digest (taken c)) refl
        where
          inner :
              (r : Option (Node M))
              → prepare_pooled M ihm get_digest (taken c) ≡ r
              → IsReplied d n'.pbft
          inner none e'' = ground (arith, e, e', e'')
          inner (some m) e'' = ground (
            arith,
            e,
            e',
            e'',
            prepare_pooled-IsReplied (taken c) m e''
                (take_old_requests-IsReplied som.old_request som.seq_start_height n.pbft h),
          )

  Step-IsReplied :
      (n n' : Node M) → Step M ihm get_digest n n' → IsReplied d n.pbft → IsReplied d n'.pbft
  Step-IsReplied n n' (proposes e) h = propose-IsReplied n n' e h
  Step-IsReplied n n' (pre_prepares v msg e) h = pre_prepare-IsReplied v msg n n' e h
  Step-IsReplied n n' (prepares v msg e) h = prepare-IsReplied v msg n n' e h
  Step-IsReplied n n' (commits v now msg e) h = commit-IsReplied v now msg n n' (inl e) h
  Step-IsReplied n n' (gets_stuck v now msg e) h = commit-IsReplied v now msg n n' (inr e) h
  Step-IsReplied n n' (answers rom e) h = answer-IsReplied rom n n' e h
  Step-IsReplied n n' (catches_up som e) h = catch_up-IsReplied som n n' e h
  Step-IsReplied n n' (asks_for_view p e same) h =
      let any : ViewChangeMsg = record { cur_view = 0; next_view = 0; seq_id = 0; from_node = 0 } in
      subst (λ (m : Node M). IsReplied d m.pbft) (sym same)
        (view-IsReplied d any n.pbft p (inl e) h)
  Step-IsReplied n n' (votes_for_view msg p e same) h =
      subst (λ (m : Node M). IsReplied d m.pbft) (sym same)
        (view-IsReplied d msg n.pbft p (inr e) h)
  Step-IsReplied n n' (takes_view now msg same) h =
      subst (λ (m : Node M). IsReplied d m.pbft) (sym same) (takes-IsReplied d now msg n.pbft h)
  Step-IsReplied n n' (watches timeout on late w c s e same) h =
      subst (λ (m : Node M). IsReplied d m.pbft) (sym same)
        (watch-IsReplied d timeout on late (record { watch = w; pbft = n.pbft; clock = c }) s e h)
  Step-IsReplied n n' (hears ids c same) h = subst (λ (m : Node M). IsReplied d m.pbft) (sym same) h

  Reach-IsReplied :
      {n n' : Node M} → Reach M ihm get_digest n n' → IsReplied d n.pbft → IsReplied d n'.pbft
  Reach-IsReplied here h = h
  Reach-IsReplied (next {m} {k} r s) h = Step-IsReplied m k s (Reach-IsReplied r h)

module _ (M : Type 0) (ihm : ExtraOpInConsensus M) (get_digest : Request → Bytes) where
  -- A node that has marked a digest as committed never commits it again: after any run of the node
  -- from there, with view changes, catching up and rounds of the monitor among its steps, a commit
  -- message for the digest changes neither the chain nor the sequence number.
  pub committed_once :
      (cur_view now : ℕ) (msg : Commit) (n m m' : Node M)
      → lookup msg.digest n.pbft.is_reply ≡ some true
      → Reach M ihm get_digest n m
      → handle_commit M ihm get_digest cur_view now msg m ≡ some (ran m')
      → Keeps M ihm get_digest m m'
  committed_once cur_view now msg n m m' marked run e =
      go (handle_commit-Commits M ihm get_digest cur_view now msg m m' e)
    where
      go :
          Keeps M ihm get_digest m m'
            ⊎ (Advances M ihm get_digest msg m m'
                × (m.pbft.sequence_id ≤ msg.seq_id)
                × (3 ≤ m.pbft.pbft_stage))
          → Keeps M ihm get_digest m m'
      go (inl keeps) = keeps
      go (inr ((seq, pooled, fresh, done, votes), later, stage)) =
          absurd (ground (arith, fresh, Reach-IsReplied M ihm get_digest msg.digest run marked))
