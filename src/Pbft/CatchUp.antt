-- ===== src/Pbft/CatchUp.antt =====
-- messageHandle.go: a node that is left behind asks the leader for old requests
-- (handleRequestOldSeq), and takes the answer (handleSendOldSeq). Heights stay below 2^64 - 1, so
-- that the leader's loop over them ends.
use blockchain_sharding.Base.{
  ℕ, zero, suc, ◌+◌, ◌-◌, ◌≡◌, ◌<◌, refl, ap, ◌∙◌, true, false, not, Option, none, some, List, [],
  ◌∷◌, ◌++◌, Bytes, lookup, insert, nat_eq, bytes_eq, nat_beq, nat_beq_iff, u64, if◌then◌else◌,
  length, get_elem?, ◌>>=◌, arith, Option-cases,
}
use blockchain_sharding.Pbft.Messages.{Request, RequestOldMessage, SendOldMessage, Out, Payload}
use blockchain_sharding.Pbft.Node.{PbftState, Node, send}
use blockchain_sharding.Pbft.Interface.{ExtraOpInConsensus}

-- The request that the leader has for a height.
abbrev pub request_at : ℕ → PbftState → Option Request
request_at height p = elim (lookup height p.height2digest) [
  | none ↦ none
  | some d ↦ lookup d p.request_pool
]

-- `n` heights from `height` on, up to the first that has no request.
unfoldable pub old_requests : ℕ → ℕ → PbftState → List Request
old_requests zero height p = []
old_requests (suc n) height p =
    let rest = old_requests n (height + 1) p in
    elim (request_at height p) [ none ↦ [] | some r ↦ r ∷ rest ]

abbrev pub heights_asked : RequestOldMessage → ℕ
heights_asked rom = (rom.seq_end_height + 1) - rom.seq_start_height

module _ (M : Type 0) (ihm : ExtraOpInConsensus M) (get_digest : Request → Bytes) where
  unfoldable pub handle_request_old_seq : RequestOldMessage → Node M → Option (Node M)
  unfolding old_requests
  handle_request_old_seq rom n = if not (nat_beq n.pbft.view n.pbft.node_id) then some n else (do
    chain ← ihm.handle_request_for_old_seq n.pbft n.chain rom
    some (record {
      pbft =
          send
            (Out.to_node rom.sender_node.ip_addr (
              Payload.send_old (record {
                seq_start_height = rom.seq_start_height;
                seq_end_height = rom.seq_end_height;
                old_request = old_requests (heights_asked rom) rom.seq_start_height n.pbft;
                sender_node = n.pbft.running_node;
              })))
            n.pbft;
      chain = chain;
    }))

  -- The loop over `som.OldRequest`.
  unfoldable pub take_old_requests : List Request → ℕ → PbftState → PbftState
  take_old_requests [] height p = p
  take_old_requests (r ∷ rs) height p = take_old_requests rs (u64 (height + 1)) (record p {
    request_pool = insert (get_digest r) r p.request_pool;
    height2digest = insert height (get_digest r) p.height2digest;
    is_reply = insert (get_digest r) true p.is_reply;
  })

  -- The request for the new sequence number, if the node has it, is prepared at once; the message
  -- goes to the other nodes only.
  unfoldable pub prepare_pooled : Node M → Option (Node M)
  prepare_pooled n = elim (request_at n.pbft.sequence_id n.pbft) [
    | none ↦ some n
    | some r ↦ (do
      (chain, flag) ←
          ihm.handle_in_pre_prepare n.pbft n.chain
            (record { request_msg = r; digest = get_digest r; seq_id = n.pbft.sequence_id })
      let p = n.pbft
      some (record {
        pbft =
            if flag
            then send
                (Out.to_neighbors (
                  Payload.prepare (record {
                    digest = get_digest r;
                    seq_id = p.sequence_id;
                    sender_node = p.running_node;
                  })))
                p
            else p;
        chain = chain;
      }))
  ]

  unfoldable pub handle_send_old_seq : SendOldMessage → Node M → Option (Node M)
  unfolding take_old_requests prepare_pooled
  handle_send_old_seq som n = do
    (chain, seq) ← ihm.handle_for_sequential_request n.pbft n.chain som
    let p = take_old_requests som.old_request som.seq_start_height n.pbft
    n' ←
        prepare_pooled
          (record { pbft = record p { sequence_id = u64 (som.seq_end_height + 1) }; chain = chain })
    (if n'.pbft.ask_for_lock
        then some (record n' { pbft = record (n'.pbft) { ask_for_lock = false } })
        else none)

-- The answer holds the requests of the heights asked for, in order.
old_requests_lem :
    (n height i : ℕ) (p : PbftState)
    → i < length (old_requests n height p)
    → get_elem? (old_requests n height p) i ≡ request_at (height + i) p
unfolding old_requests
old_requests_lem zero height i p h = ground arith
old_requests_lem (suc n) height zero p h = ground (arith, Option-cases (request_at height p))
old_requests_lem (suc n) height (suc i) p h =
    ground (arith, Option-cases (request_at height p), old_requests_lem n (height + 1) i p)

request_at-cong : (j k : ℕ) (p : PbftState) → j ≡ k → request_at j p ≡ request_at k p
request_at-cong j k p e = ap (λ h. request_at h p) e

old_requests-length :
    (n height : ℕ) (p : PbftState)
    → ((i : ℕ) → i < n → (r : Request) × (request_at (height + i) p ≡ some r))
    → length (old_requests n height p) ≡ n
unfolding old_requests
old_requests-length zero height p h = refl
old_requests-length (suc n) height p h =
    let later : (i : ℕ) → i < n → (r : Request) × (request_at (height + 1 + i) p ≡ some r) =
      λ i less.
        let (r, e) = h (suc i) (omega (arith, less)) in
        (r, request_at-cong (height + 1 + i) (height + suc i) p (omega arith) ∙ e) in
    let (r, e) = h 0 (omega arith) in
    ground (
      arith,
      request_at-cong height (height + 0) p (omega arith),
      e,
      old_requests-length n (height + 1) p later,
    )

module _ (M : Type 0) (ihm : ExtraOpInConsensus M) (get_digest : Request → Bytes) where
  -- A leader, which is the node of its view, that has the requests of all heights asked for sends
  -- one answer, to the node that asked, and the request at each place of it is the one of the
  -- height that stands there.
  pub handle_request_old_seq-answers :
      (rom : RequestOldMessage) (n n' : Node M)
      → n.pbft.view ≡ n.pbft.node_id
      → ((i : ℕ)
          → i < heights_asked rom
          → (r : Request) × (request_at (rom.seq_start_height + i) n.pbft ≡ some r))
      → handle_request_old_seq M ihm get_digest rom n ≡ some n'
      → (i : ℕ) → i < heights_asked rom
      → (answer : SendOldMessage) × (n'.pbft.sent
          ≡ n.pbft.sent ++ Out.to_node rom.sender_node.ip_addr (Payload.send_old answer) ∷ [])
        × (length answer.old_request ≡ heights_asked rom)
        × (get_elem? answer.old_request i ≡ request_at (rom.seq_start_height + i) n.pbft)
  unfolding handle_request_old_seq
  handle_request_old_seq-answers rom n n' leads has_all h i less =
      let full = old_requests-length (heights_asked rom) rom.seq_start_height n.pbft has_all in
      (
        (record {
          seq_start_height = rom.seq_start_height;
          seq_end_height = rom.seq_end_height;
          old_request = old_requests (heights_asked rom) rom.seq_start_height n.pbft;
          sender_node = n.pbft.running_node;
        }),
        ground (
          arith,
          leads,
          h,
          nat_beq_iff n.pbft.view n.pbft.node_id,
          Option-cases (ihm.handle_request_for_old_seq n.pbft n.chain rom),
        ),
        full,
        old_requests_lem (heights_asked rom) rom.seq_start_height i n.pbft
            (ground (arith, full, less)),
      )

  prepare_pooled-keeps :
      (n n' : Node M)
      → prepare_pooled M ihm get_digest n ≡ some n'
      → n'.pbft.sequence_id ≡ n.pbft.sequence_id
  unfolding prepare_pooled
  prepare_pooled-keeps n n' h = go (request_at n.pbft.sequence_id n.pbft) refl
    where
      go :
          (r : Option Request)
          → request_at n.pbft.sequence_id n.pbft ≡ r
          → n'.pbft.sequence_id ≡ n.pbft.sequence_id
      go none e = ground (arith, h, e)
      go (some r) e = ground (
        arith,
        h,
        e,
        Option-cases (
            ihm.handle_in_pre_prepare n.pbft n.chain
              (record { request_msg = r; digest = get_digest r; seq_id = n.pbft.sequence_id })),
      )

  -- Whatever the answer holds, complete or not, the node that takes it goes on after the last
  -- height that it had asked for.
  handle_send_old_seq-jumps :
      (som : SendOldMessage) (n n' : Node M)
      → handle_send_old_seq M ihm get_digest som n ≡ some n'
      → n'.pbft.sequence_id ≡ u64 (som.seq_end_height + 1)
  unfolding handle_send_old_seq
  handle_send_old_seq-jumps som n n' h =
      go (ihm.handle_for_sequential_request n.pbft n.chain som) refl
    where
      taken : M → Node M
      taken c = record {
        pbft =
            record (take_old_requests M ihm get_digest som.old_request som.seq_start_height
              n.pbft) { sequence_id = u64 (som.seq_end_height + 1) };
        chain = c;
      }

      go :
          (r : Option (M × ℕ))
          → ihm.handle_for_sequential_request n.pbft n.chain som ≡ r
          → n'.pbft.sequence_id ≡ u64 (som.seq_end_height + 1)
      go none e = ground (arith, h, e)
      go (some (c, seq)) e = inner (prepare_pooled M ihm get_digest (taken c)) refl
        where
          inner :
              (r : Option (Node M))
              → prepare_pooled M ihm get_digest (taken c) ≡ r
              → n'.pbft.sequence_id ≡ u64 (som.seq_end_height + 1)
          inner none e' = ground (arith, h, e, e')
          inner (some m) e' = ground (arith, h, e, e', prepare_pooled-keeps (taken c) m e')
