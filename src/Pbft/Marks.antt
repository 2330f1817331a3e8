-- ===== src/Pbft/Marks.antt =====
-- The commit broadcasts of a node, counted for a digest, and what catching up (messageHandle.go),
-- view changes (view_change.go) and the monitor make of them.
use blockchain_sharding.Base.{
  ◌+◌, u64, ℕ, ◌≡◌, refl, Bool, false, Option, none, some, List, [], ◌∷◌, Bytes, lookup_or, nat_eq,
  bytes_eq, bytes_beq, if◌then◌else◌, arith, Option-cases, count, count-append,
}
use blockchain_sharding.Pbft.Messages.{
  Request, RequestOldMessage, SendOldMessage, ViewChangeMsg, NewViewMsg, Out, Payload,
}
use blockchain_sharding.Pbft.Node.{PbftState, Node}
use blockchain_sharding.Pbft.Interface.{ExtraOpInConsensus}
use blockchain_sharding.Pbft.CatchUp.{
  handle_request_old_seq, handle_send_old_seq, take_old_requests, prepare_pooled, request_at,
}
use blockchain_sharding.Pbft.ViewChange.{
  view_change_propose, handle_view_change_msg, handle_new_view_msg,
}
use blockchain_sharding.Pbft.Monitor.{
  Watched, watch_round, reset_stage, force_release, check_commit_time,
}

-- Which commit broadcasts are for a digest.
abbrev pub is_commit_of : Bytes → Out → Bool
is_commit_of d (Out.to_shard m) = elim m [ Payload.commit c ↦ bytes_beq c.digest d | _ ↦ false ]
is_commit_of d (Out.to_neighbors m) = false
is_commit_of d (Out.to_supervisor m) = false
is_commit_of d (Out.to_node ip m) = false
is_commit_of d (Out.to_leader s m) = false

-- The commit broadcasts for a digest are counted by its mark.
abbrev pub Marks : Bytes → PbftState → Type 0
Marks d p =
    count (is_commit_of d) p.sent ≡ (if lookup_or d false p.is_commit_broadcast then 1 else 0)

pub asks-Marks :
    (d : Bytes) (p p' : PbftState) → view_change_propose p ≡ some p' → Marks d p → Marks d p'
unfolding view_change_propose
asks-Marks d p p' e h = grind (arith, h, count-append)

pub votes-Marks :
    (d : Bytes) (msg : ViewChangeMsg) (p p' : PbftState)
    → handle_view_change_msg msg p ≡ some p'
    → Marks d p
    → Marks d p'
unfolding handle_view_change_msg
votes-Marks d msg p p' e h = grind (arith, h, count-append)

pub takes-Marks :
    (d : Bytes) (now : ℕ) (msg : NewViewMsg) (p : PbftState)
    → Marks d p
    → Marks d (handle_new_view_msg now msg p)
unfolding handle_new_view_msg
takes-Marks d now msg p h = ground (arith, h)

pub watch-Marks :
    (d : Bytes) (timeout : ℕ) (on late : Bool) (s s' : Watched)
    → watch_round timeout on s ≡ some (s', late)
    → Marks d s.pbft
    → Marks d s'.pbft
unfolding watch_round reset_stage force_release check_commit_time
watch-Marks d timeout on late s s' e h = ground (arith, h)

module _ (M : Type 0) (ihm : ExtraOpInConsensus M) (get_digest : Request → Bytes) (d : Bytes) where
  pub answer-Marks :
      (rom : RequestOldMessage) (n n' : Node M)
      → handle_request_old_seq M ihm get_digest rom n ≡ some n'
      → Marks d n.pbft
      → Marks d n'.pbft
  unfolding handle_request_old_seq
  answer-Marks rom n n' e h =
      grind
        (arith, h, count-append, Option-cases (ihm.handle_request_for_old_seq n.pbft n.chain rom))

  take_old_requests-Marks :
      (rs : List Request) (height : ℕ) (p : PbftState)
      → Marks d p
      → Marks d (take_old_requests M ihm get_digest rs height p)
  unfolding take_old_requests
  take_old_requests-Marks [] height p h = h
  take_old_requests-Marks (r ∷ rs) height p h = take_old_requests-Marks rs (u64 (height + 1)) _ h

  prepare_pooled-Marks :
      (n n' : Node M)
      → prepare_pooled M ihm get_digest n ≡ some n'
      → Marks d n.pbft
      → Marks d n'.pbft
  unfolding prepare_pooled
  prepare_pooled-Marks n n' e h = go (request_at n.pbft.sequence_id n.pbft) refl
    where
      go : (r : Option Request) → request_at n.pbft.sequence_id n.pbft ≡ r → Marks d n'.pbft
      go none e' = ground (arith, h, e, e')
      go (some r) e' = grind (
        arith,
        h,
        e,
        e',
        count-append,
        Option-cases (
            ihm.handle_in_pre_prepare n.pbft n.chain
              (record { request_msg = r; digest = get_digest r; seq_id = n.pbft.sequence_id })),
      )

  pub catch_up-Marks :
      (som : SendOldMessage) (n n' : Node M)
      → handle_send_old_seq M ihm get_digest som n ≡ some n'
      → Marks d n.pbft
      → Marks d n'.pbft
  unfolding handle_send_old_seq
  catch_up-Marks som n n' e h = go (ihm.handle_for_sequential_request n.pbft n.chain som) refl
    where
      old : PbftState
      old = take_old_requests M ihm get_digest som.old_request som.seq_start_height n.pbft

      taken : M → Node M
      taken c = record {
        pbft = record old { sequence_id = u64 (som.seq_end_height + 1) };
        chain = c;
      }

      marked : Marks d old
      marked = take_old_requests-Marks som.old_request som.seq_start_height n.pbft h

      go :
          (r : Option (M × ℕ))
          → ihm.handle_for_sequential_request n.pbft n.chain som ≡ r
          → Marks d n'.pbft
      go none e' = ground (arith, e, e')
      go (some (c, seq)) e' = inner (prepare_pooled M ihm get_digest (taken c)) refl
        where
          inner :
              (r : Option (Node M))
              → prepare_pooled M ihm get_digest (taken c) ≡ r
              → Marks d n'.pbft
          inner none e'' = ground (arith, e, e', e'')
          inner (some m) e'' =
              ground (arith, e, e', e'', prepare_pooled-Marks (taken c) m e'' marked)
