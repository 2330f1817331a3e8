-- ===== src/Tests/Nodes.antt =====
-- A node with a message module that only counts commits, in a shard of one node and of four.
use blockchain_sharding.Base.{
  ℕ, zero, suc, ◌+◌, ◌*◌, ◌≡◌, ◌≤◌, ◌<◌, ◌≢◌, ◌⊎◌, refl, sym, ap, true, false, Option, none, some,
  List, [], ◌∷◌, ◌++◌, Bytes, lookup_or, nat_eq, bytes_eq, length, count, arith, get_elem?,
}
use blockchain_sharding.Params.{ChainConfig}
use blockchain_sharding.Pbft.Messages.{
  NodeInfo, Request, Prepare, Commit, RequestOldMessage, SendOldMessage, NewViewMsg, Out, Payload,
}
use blockchain_sharding.Pbft.Node.{
  PbftState, Node, new_pbft_state, malicious_nums_of, view_change_eq,
}
use blockchain_sharding.Pbft.Interface.{ExtraOpInConsensus}
use blockchain_sharding.Pbft.Handlers.{
  Outcome, waits, ran, stuck, vote_prepare, vote_commit, prepare_votes, propose, handle_prepare,
  accept_prepare, try_commit, handle_commit, accept_commit, commit_request,
}
use blockchain_sharding.Pbft.Safety.{Keeps, Advances, handle_commit-Commits}
use blockchain_sharding.Pbft.Marks.{is_commit_of}
use blockchain_sharding.Pbft.Once.{IsQuiet, commit_broadcast_once}
use blockchain_sharding.Pbft.Votes.{IsReady, deliver, resent_prepare_suffices}
use blockchain_sharding.Pbft.Runs.{proposes, prepares, commits, asks_for_view, Reach, here, next}
use blockchain_sharding.Pbft.Committed.{committed_once}
use blockchain_sharding.Pbft.ViewChange.{
  view_change_propose, handle_new_view_msg, handle_new_view_msgs, new_view-needs_quorum,
  new_view_replayed,
}
use blockchain_sharding.Pbft.CatchUp.{
  handle_request_old_seq, request_at, handle_request_old_seq-answers,
}
use blockchain_sharding.Pbft.Monitor.{Watched, watch_rounds, propose_after_watch_rounds}
use blockchain_sharding.Tests.World.{config}

abbrev request_of : ℕ → Request
request_of c = record { request_type = 66 ∷ []; content = c ∷ []; req_time = 3 }

abbrev digest_of : Request → Bytes
digest_of r = r.content

unfoldable counter : ExtraOpInConsensus ℕ
counter = record {
  handle_in_propose = λ p c. some (c, [], request_of c);
  handle_in_pre_prepare = λ p c msg. some (c, true);
  handle_in_prepare = λ p c msg. some c;
  handle_in_commit = λ p c msg. some (c + 1, []);
  handle_request_for_old_seq = λ p c msg. some c;
  handle_for_sequential_request = λ p c msg. some (c, p.sequence_id);
}

abbrev node_info : NodeInfo
node_info = record { node_id = 0; shard_id = 0; ip_addr = 9 ∷ [] }

abbrev sized : ℕ → ChainConfig
sized n = record (config 0) { nodes_per_shard = n }

abbrev start : ℕ → Node ℕ
start n = record { pbft = new_pbft_state node_info (λ v. v ∷ []) (sized n) 0 0; chain = 0 }

abbrev prepare_msg : Prepare
prepare_msg = record { digest = 0 ∷ []; seq_id = 1; sender_node = node_info }

abbrev commit_msg : Commit
commit_msg = record { digest = 0 ∷ []; seq_id = 1; sender_node = node_info }

abbrev after : Node ℕ → Option (Outcome ℕ) → Node ℕ
after n none = n
after n (some waits) = n
after n (some (ran n')) = n'
after n (some (stuck n')) = n'

abbrev proposed : ℕ → Node ℕ
proposed k = after (start k) (propose ℕ counter digest_of (start k))

abbrev prepared : ℕ → Node ℕ
prepared k = after (proposed k) (handle_prepare ℕ counter digest_of 0 prepare_msg (proposed k))

abbrev committed : ℕ → Node ℕ
committed k = after (prepared k) (handle_commit ℕ counter digest_of 0 8 commit_msg (prepared k))

abbrev commits_to : Bytes → List Out → ℕ
commits_to d outs = count (is_commit_of d) outs

abbrev proposal_commits : Bytes → Option (ℕ × List Out × Request) → ℕ
proposal_commits d none = 0
proposal_commits d (some (c, outs, r)) = commits_to d outs

abbrev step_commits : Bytes → Option (ℕ × List Out) → ℕ
step_commits d none = 0
step_commits d (some (c, outs)) = commits_to d outs

counter-IsQuiet : IsQuiet ℕ counter digest_of
unfolding counter
counter-IsQuiet = record {
  in_propose = λ d p c c' outs r h. sym (ap (proposal_commits d) h);
  in_commit = λ d p c c' msg outs h. sym (ap (step_commits d) h);
}

whole_round : Reach ℕ counter digest_of (start 1) (committed 1)
unfolding counter new_pbft_state malicious_nums_of propose handle_prepare accept_prepare
    vote_prepare try_commit handle_commit accept_commit vote_commit commit_request
whole_round =
    next (next (next here (proposes refl)) (prepares 0 prepare_msg refl))
      (commits 0 8 commit_msg refl)

commit_broadcast_once_example : count (is_commit_of (0 ∷ [])) (committed 1).pbft.sent ≤ 1
commit_broadcast_once_example =
    commit_broadcast_once ℕ counter digest_of counter-IsQuiet (0 ∷ []) node_info (λ v. v ∷ [])
      (sized 1) 0 0 0 (committed 1) whole_round

handle_commit-Commits_example :
    Keeps ℕ counter digest_of (prepared 1) (committed 1)
    ⊎ (Advances ℕ counter digest_of commit_msg (prepared 1) (committed 1)
        × ((prepared 1).pbft.sequence_id ≤ 1)
        × (3 ≤ (prepared 1).pbft.pbft_stage))
unfolding counter new_pbft_state malicious_nums_of propose handle_prepare accept_prepare
    vote_prepare try_commit handle_commit accept_commit vote_commit commit_request
handle_commit-Commits_example =
    handle_commit-Commits ℕ counter digest_of 0 8 commit_msg (prepared 1) (committed 1) refl

-- After its commit, the node asks for a view change, and gets the commit message again.
abbrev asked : Node ℕ
asked = elim (view_change_propose (committed 1).pbft) [
  | none ↦ committed 1
  | some p ↦ record (committed 1) { pbft = p }
]

asking : Reach ℕ counter digest_of (committed 1) asked
unfolding view_change_propose counter new_pbft_state malicious_nums_of propose handle_prepare
    accept_prepare vote_prepare try_commit handle_commit accept_commit vote_commit commit_request
asking = next here (asks_for_view asked.pbft refl refl)

committed_once_example :
    Keeps ℕ counter digest_of asked
      (after asked (handle_commit ℕ counter digest_of 0 9 commit_msg asked))
unfolding view_change_propose counter new_pbft_state malicious_nums_of propose handle_prepare
    accept_prepare vote_prepare try_commit handle_commit accept_commit vote_commit commit_request
committed_once_example =
    committed_once ℕ counter digest_of 0 9 commit_msg (committed 1) asked
      (after asked (handle_commit ℕ counter digest_of 0 9 commit_msg asked)) refl asking refl

-- A leader of four nodes that has proposed takes prepare messages.
proposed-IsReady : IsReady ℕ counter digest_of 0 prepare_msg (proposed 4)
unfolding counter new_pbft_state malicious_nums_of propose
proposed-IsReady = record {
  stage = omega arith;
  seq = refl;
  view = refl;
  pooled = refl;
  fresh = tt;
}

counter-calm : (p : PbftState) (c : ℕ) (m : Prepare) → counter.handle_in_prepare p c m ≡ some c
unfolding counter
counter-calm p c m = refl

resent_prepare_suffices_example :
    (n' : Node ℕ) × (deliver ℕ counter digest_of 3 0 prepare_msg (proposed 4) ≡ some n')
    × (prepare_votes n'.pbft (0 ∷ []) ≡ 3 + prepare_votes (proposed 4).pbft (0 ∷ []))
    × (lookup_or (0 ∷ []) false n'.pbft.is_commit_broadcast ≡ true)
unfolding counter new_pbft_state malicious_nums_of propose
resent_prepare_suffices_example =
    resent_prepare_suffices ℕ counter digest_of counter-calm 2 0 prepare_msg (proposed 4)
      proposed-IsReady refl

abbrev node_at : ℕ → NodeInfo
node_at i = record { node_id = i; shard_id = 0; ip_addr = i ∷ [] }

abbrev new_view : ℕ → NewViewMsg
new_view from = record { cur_view = 0; next_view = 1; new_seq_id = 1; from_node = from }

new_view-needs_quorum_example :
    ((3 ≡ 2 * (start 4).pbft.malicious_nums + 1)
      × ((handle_new_view_msg 7
            (new_view 3)
            (handle_new_view_msgs ((6, new_view 2) ∷ (5, new_view 1) ∷ []) (start 4).pbft)).view
          ≡ 1)
      × ((handle_new_view_msg 7 (new_view 3) (
            handle_new_view_msgs
              ((6, new_view 2) ∷ (5, new_view 1) ∷ [])
              (start 4).pbft)).sequence_id
          ≡ 1)
      × ((handle_new_view_msg 7 (new_view 3) (
            handle_new_view_msgs
              ((6, new_view 2) ∷ (5, new_view 1) ∷ [])
              (start 4).pbft)).pbft_stage
          ≡ 1))
    ⊎ ((3 ≢ 2 * (start 4).pbft.malicious_nums + 1)
        × ((handle_new_view_msg 7
              (new_view 3)
              (handle_new_view_msgs ((6, new_view 2) ∷ (5, new_view 1) ∷ []) (start 4).pbft)).view
            ≡ (handle_new_view_msgs ((6, new_view 2) ∷ (5, new_view 1) ∷ []) (start 4).pbft).view)
        × ((handle_new_view_msg 7 (new_view 3) (
              handle_new_view_msgs
                ((6, new_view 2) ∷ (5, new_view 1) ∷ [])
                (start 4).pbft)).sequence_id
            ≡ (handle_new_view_msgs
                ((6, new_view 2) ∷ (5, new_view 1) ∷ [])
                (start 4).pbft).sequence_id)
        × ((handle_new_view_msg 7 (new_view 3) (
              handle_new_view_msgs
                ((6, new_view 2) ∷ (5, new_view 1) ∷ [])
                (start 4).pbft)).pbft_stage
            ≡ (handle_new_view_msgs
                ((6, new_view 2) ∷ (5, new_view 1) ∷ [])
                (start 4).pbft).pbft_stage))
unfolding new_pbft_state
new_view-needs_quorum_example =
    new_view-needs_quorum 7 (new_view 3) ((6, new_view 2) ∷ (5, new_view 1) ∷ []) (start 4).pbft
      refl

-- Three nodes have changed the view to 1, and the node has since come to sequence number 9.
abbrev moved : PbftState
moved =
    record (handle_new_view_msgs ((6, new_view 3) ∷ (5, new_view 2) ∷ (4, new_view 1) ∷ [])
      (start 4).pbft) { sequence_id = 9 }

new_view_replayed_example :
    ((handle_new_view_msg 7 (new_view 3) moved).view ≡ 1)
    × ((handle_new_view_msg 7 (new_view 3) moved).sequence_id ≡ 1)
    × ((handle_new_view_msg 7 (new_view 3) moved).pbft_stage ≡ 1)
unfolding new_pbft_state malicious_nums_of handle_new_view_msgs
new_view_replayed_example = new_view_replayed 7 (new_view 3) moved refl refl

abbrev ask : RequestOldMessage
ask = record {
  seq_start_height = 1;
  seq_end_height = 1;
  server_node = node_info;
  sender_node = node_at 3;
}

abbrev answered : Node ℕ
answered = elim (handle_request_old_seq ℕ counter digest_of ask (proposed 4)) [
  | none ↦ proposed 4
  | some n ↦ n
]

has_first : (i : ℕ) → i < 1 → (r : Request) × (request_at (1 + i) (proposed 4).pbft ≡ some r)
unfolding counter new_pbft_state malicious_nums_of propose
has_first zero h = (request_of 0, refl)
has_first (suc i) h = absurd (omega (arith, h))

handle_request_old_seq-answers_example :
    (answer : SendOldMessage) × (answered.pbft.sent
      ≡ (proposed 4).pbft.sent ++ Out.to_node (3 ∷ []) (Payload.send_old answer) ∷ [])
    × (length answer.old_request ≡ 1)
    × (get_elem? answer.old_request 0 ≡ request_at 1 (proposed 4).pbft)
unfolding counter new_pbft_state malicious_nums_of propose handle_request_old_seq
handle_request_old_seq-answers_example =
    handle_request_old_seq-answers ℕ counter digest_of ask (proposed 4) answered refl has_first refl
      0 (omega arith)

-- A leader that holds the sequence lock in stage 2, under a clock that ticks every 40 seconds.
abbrev watched : Watched
watched = record {
  watch = record { last_stage = 2; last_stage_change_time = 0 };
  pbft =
      record (new_pbft_state (record { node_id = 0; shard_id = 0; ip_addr = 9 ∷ [] }) (λ v. v ∷ [])
        (config 0) 0 0) { sequence_lock = true; pbft_stage = 2 };
  clock = record { at = λ n. n * 40000; reads = 1 };
}

propose_after_watch_rounds_example :
    (s' : Watched) × (watch_rounds 300000 (true ∷ false ∷ true ∷ []) watched ≡ some s')
    × (s'.pbft.sequence_lock ≡ true)
    × (propose ℕ counter digest_of (record { pbft = s'.pbft; chain = 0 }) ≡ some waits)
unfolding new_pbft_state
propose_after_watch_rounds_example =
    propose_after_watch_rounds ℕ counter digest_of 300000 (true ∷ false ∷ true ∷ []) watched 0
      (λ i j h. omega (arith, h)) refl refl
