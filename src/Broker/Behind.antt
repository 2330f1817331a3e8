-- ===== src/Broker/Behind.antt =====
-- A node of the Broker mode that is left behind and takes the answer to its request for old blocks
-- (messageHandle.go, handleSendOldSeq, with pbftInside_moduleBroker.go).
use blockchain_sharding.Base.{
  ℕ, ◌+◌, ◌^◌, ◌<◌, ◌≤◌, true, false, ◌&&◌, Option, none, some, List, [], ◌∷◌, Bytes, lookup,
  nat_beq, nat_eq, bytes_eq, bytes_beq_iff, u64, length, arith, ◌≡◌, refl, ◌∙◌, sym, subst, All,
  lookup-insert, Option-cases,
}
use blockchain_sharding.Chain.Backend.{Backend}
use blockchain_sharding.Chain.Blocks.{is_valid_block}
use blockchain_sharding.Pbft.Messages.{Request, SendOldMessage}
use blockchain_sharding.Pbft.Node.{PbftState, Node}
use blockchain_sharding.Pbft.Interface.{ExtraOpInConsensus}
use blockchain_sharding.Pbft.CatchUp.{
  handle_send_old_seq, take_old_requests, prepare_pooled, request_at,
}
use blockchain_sharding.Pbft.Committed.{IsReplied, take_old_requests-IsReplied}
use blockchain_sharding.Relay.Inside.{Chain}
use blockchain_sharding.Broker.Inside.{broker_module, broker_in_pre_prepare}
use blockchain_sharding.Broker.Reported.{is_empty, broker_sequential_request_lem}

module _ (M : Type 0) (ihm : ExtraOpInConsensus M) (get_digest : Request → Bytes) where
  take_old_requests-lock :
      (rs : List Request) (height : ℕ) (p : PbftState)
      → (take_old_requests M ihm get_digest rs height p).ask_for_lock ≡ p.ask_for_lock
  unfolding take_old_requests
  take_old_requests-lock [] height p = refl
  take_old_requests-lock (r ∷ rs) height p = take_old_requests-lock rs (u64 (height + 1)) _

  take_old_requests-All :
      (rs : List Request) (height : ℕ) (p : PbftState)
      → All (λ r. IsReplied (get_digest r) (take_old_requests M ihm get_digest rs height p)) rs
  unfolding take_old_requests
  take_old_requests-All [] height p = tt
  take_old_requests-All (r ∷ rs) height p = (
    take_old_requests-IsReplied M ihm get_digest (get_digest r) rs (u64 (height + 1)) _ (
        ground (
          arith,
          lookup-insert (get_digest r) (get_digest r) true p.is_reply,
          bytes_beq_iff (get_digest r) (get_digest r),
        )),
    take_old_requests-All rs (u64 (height + 1)) _,
  )

module _ (be : Backend) (size_of : ℕ) (get_digest : Request → Bytes) where
  abbrev Same : Node (Chain be) → Node (Chain be) → Type 0
  Same n n' =
      (n'.chain ≡ n.chain)
      × (n'.pbft.sequence_id ≡ n.pbft.sequence_id)
      × (n'.pbft.is_reply ≡ n.pbft.is_reply)
      × (n'.pbft.ask_for_lock ≡ n.pbft.ask_for_lock)

  prepare_pooled-Same :
      (n : Node (Chain be))
      → (n' : Node (Chain be)) × (prepare_pooled (Chain be) (broker_module be size_of) get_digest n
          ≡ some n')
        × Same n n'
  unfolding prepare_pooled broker_module broker_in_pre_prepare
  prepare_pooled-Same n =
      go (prepare_pooled (Chain be) (broker_module be size_of) get_digest n) refl
        (request_at n.pbft.sequence_id n.pbft) refl
    where
      Goal : Type 0
      Goal =
          (n' : Node (Chain be)) × (prepare_pooled (Chain be) (broker_module be size_of) get_digest
              n
            ≡ some n')
          × Same n n'

      go :
          (x : Option (Node (Chain be)))
          → prepare_pooled (Chain be) (broker_module be size_of) get_digest n ≡ x
          → (r : Option Request) → request_at n.pbft.sequence_id n.pbft ≡ r
          → Goal
      go x ex none e = (n, rw (e, prepare_pooled) refl, (refl, refl, refl, refl))
      go none ex (some r) e = absurd (
          ground (
            arith,
            ex,
            e,
            Option-cases (is_valid_block be n.chain.bc (be.codec.decode_b r.content)),
          ))
      go (some n') ex (some r) e = (
        n',
        ex,
        ground (
          arith,
          ex,
          e,
          Option-cases (is_valid_block be n.chain.bc (be.codec.decode_b r.content)),
        ),
      )

  -- A node of the Broker mode that is left behind and waits for an answer: whatever requests the
  -- answer holds, fewer than 2^63 of them, for an ordered range of sequence numbers below 2^63, as
  -- long as there is a request or the range is of more than one number. The node takes the answer
  -- without a panic. It adds no block, its chain stays as it was; yet it goes on after the last
  -- number of the range, and marks every request of the answer as committed.
  pub handle_send_old_seq-loses :
      (som : SendOldMessage) (n : Node (Chain be))
      → som.seq_start_height ≤ som.seq_end_height
      → som.seq_end_height < 2 ^ 63
      → length som.old_request < 2 ^ 63
      → (nat_beq som.seq_start_height som.seq_end_height && is_empty som.old_request) ≡ false
      → n.pbft.ask_for_lock ≡ true
      → (n' : Node (Chain be)) × (handle_send_old_seq
            (Chain be)
            (broker_module be size_of)
            get_digest
            som
            n
          ≡ some n')
        × (n'.chain ≡ n.chain)
        × (n'.pbft.sequence_id ≡ som.seq_end_height + 1)
        × All (λ r. IsReplied (get_digest r) n'.pbft) som.old_request
  unfolding handle_send_old_seq broker_module
  handle_send_old_seq-loses som n ordered small few present waits =
      let dismissed =
        broker_sequential_request_lem be size_of n.pbft n.chain som ordered small few in
      let old =
        take_old_requests (Chain be) (broker_module be size_of) get_digest som.old_request
          som.seq_start_height n.pbft in
      let taken : Node (Chain be) = record {
        pbft = record old { sequence_id = u64 (som.seq_end_height + 1) };
        chain = n.chain;
      } in
      let (m, run, (chain, seq, replied, lock)) = prepare_pooled-Same taken in
      let held =
        lock
        ∙ take_old_requests-lock (Chain be) (broker_module be size_of) get_digest som.old_request
            som.seq_start_height n.pbft
        ∙ waits in
      (
        record m { pbft = record (m.pbft) { ask_for_lock = false } },
        rw (dismissed, present, handle_send_old_seq) (rw run (rw held refl)),
        chain,
        omega (arith, seq, small),
        subst (λ marks. All (λ r. lookup (get_digest r) marks ≡ some true) som.old_request)
            (sym replied)
            (take_old_requests-All (Chain be) (broker_module be size_of) get_digest som.old_request
              som.seq_start_height n.pbft),
      )
