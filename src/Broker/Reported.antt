-- ===== src/Broker/Reported.antt =====
-- What a node of the Broker mode reports of a block, and what it does with an answer to its request
-- for old blocks (pbftInside_moduleBroker.go).
use blockchain_sharding.Base.{
  ℕ, zero, suc, ◌+◌, ◌-◌, ◌^◌, ◌<◌, ◌≤◌, Bool, true, false, not, ◌&&◌, none, some, List, [], ◌∷◌,
  ◌++◌, map, lookup, nat_beq, bytes_eq, nat_eq, u64, if◌then◌else◌, length, keep, arith, ◌≡◌, refl,
  Bool-cases, inl, inr, ◌↔◌, ℕ_discrete, nat_beq_iff,
}
use blockchain_sharding.Core.Transaction.{Transaction}
use blockchain_sharding.Chain.Backend.{Backend}
use blockchain_sharding.Chain.State.{BlockChain}
use blockchain_sharding.Chain.Blocks.{add_block}
use blockchain_sharding.Pbft.Messages.{Request, Commit, SendOldMessage, Out, Payload}
use blockchain_sharding.Pbft.Node.{PbftState}
use blockchain_sharding.Relay.Inside.{Chain, other_shards, read_time}
use blockchain_sharding.Broker.Inside.{
  deal_txs, is_broker1_tx, is_broker2_tx, seq_info_to, dealt_info, heights, report_block,
  broker_in_commit, broker_sequential_request, add_old_heights,
}

-- Whether there is no request.
abbrev pub is_empty : List Request → Bool
is_empty [] = true
is_empty (r ∷ rs) = false

-- The 64-bit difference of an ordered range, backwards.
backwards :
    (a b n : ℕ) → a ≤ b → b < 2 ^ 63 → n < 2 ^ 63 → (u64 (a + 2 ^ 64 - b) ≡ n) ↔ ((a ≡ b) × (n ≡ 0))
backwards a b n ordered small few = elim (ℕ_discrete a b) [
  | yes e ↦ (λ h. (e, omega (arith, h, e)), λ h. omega (arith, h.1, e))
  | no ne ↦ (λ h. absurd (ne (omega (arith, h, ordered, small, few))), λ h. absurd (ne h.0))
]

has_span-IsEmpty :
    (a b : ℕ) (rs : List Request)
    → a ≤ b
    → b < 2 ^ 63
    → length rs < 2 ^ 63
    → nat_beq (u64 (a + 2 ^ 64 - b)) (length rs) ≡ (nat_beq a b && is_empty rs)
has_span-IsEmpty a b [] ordered small few = ground (
  arith,
  backwards a b 0 ordered small few,
  nat_beq_iff (u64 (a + 2 ^ 64 - b)) 0,
  nat_beq_iff a b,
)
has_span-IsEmpty a b (r ∷ rs) ordered small few = ground (
  arith,
  backwards a b (length (r ∷ rs)) ordered small few,
  nat_beq_iff (u64 (a + 2 ^ 64 - b)) (length (r ∷ rs)),
  nat_beq_iff a b,
)

-- What the loop over `block.Body` makes of the transactions of a block.
deal_txs-kept :
    (txs : List Transaction)
    → deal_txs txs ≡ record {
      inner_shard_txs = keep (λ tx. not (is_broker2_tx tx) && not (is_broker1_tx tx)) txs;
      broker1_txs = keep (λ tx. not (is_broker2_tx tx) && is_broker1_tx tx) txs;
      broker2_txs = keep is_broker2_tx txs;
    }
unfolding deal_txs
deal_txs-kept [] = refl
deal_txs-kept (tx ∷ txs) = elim (Bool-cases (is_broker2_tx tx)) [
  | inl e ↦ rw (deal_txs-kept txs) (rw e refl)
  | inr e ↦ elim (Bool-cases (is_broker1_tx tx)) [
    | inl e' ↦ rw (deal_txs-kept txs) (rw (e, e') refl)
    | inr e' ↦ rw (deal_txs-kept txs) (rw (e, e') refl)
  ]
]

module _ (be : Backend) (size_of : ℕ) where
  none_there :
      (n : ℕ) (rs : List Request) (bc : BlockChain be)
      → 0 < n
      → is_empty rs ≡ true
      → add_old_heights be size_of n rs bc ≡ none
  unfolding add_old_heights
  none_there zero rs bc positive e = absurd (omega (arith, positive))
  none_there (suc n) [] bc positive e = refl
  none_there (suc n) (r ∷ rs) bc positive e = absurd (ground (arith, e))

  -- An answer to a node of the Broker mode, with an ordered range of sequence numbers below 2^63 and
  -- fewer than 2^63 requests, is dismissed: the chain and the sequence number stay, however many
  -- requests there are; only a range of one number without any request is a panic.
  pub broker_sequential_request_lem :
      (p : PbftState) (c : Chain be) (som : SendOldMessage)
      → som.seq_start_height ≤ som.seq_end_height
      → som.seq_end_height < 2 ^ 63
      → length som.old_request < 2 ^ 63
      → broker_sequential_request be size_of p c som ≡ (
          if nat_beq som.seq_start_height som.seq_end_height && is_empty som.old_request
          then none
          else some (c, p.sequence_id))
  unfolding broker_sequential_request
  broker_sequential_request_lem p c som ordered small few =
      let same =
        has_span-IsEmpty som.seq_start_height som.seq_end_height som.old_request ordered small
          few in
      elim (Bool-cases
        (nat_beq som.seq_start_height som.seq_end_height && is_empty som.old_request)) [
          | inl e ↦
              rw (same, e)
                (rw
                  (none_there (heights som) som.old_request c.bc (ground (arith, ordered))
                    (ground (arith, e)))
                  refl)
          | inr e ↦ rw (same, e) refl
        ]

  -- Where the leader commits a request that it holds and whose block the chain can add, it tells
  -- every other shard's leader its sequence number, and then the supervisor what the block holds:
  -- the second parts of transactions across shards, the first parts that are no second part, and
  -- the rest, each list in the order of the block and every transaction in one of them.
  broker_in_commit-reports :
      (p : PbftState) (c : Chain be) (msg : Commit) (r : Request) (bc : BlockChain be)
      → lookup msg.digest p.request_pool ≡ some r
      → add_block be c.bc (be.codec.decode_b r.content) ≡ some bc
      → p.node_id ≡ p.view
      → let b = be.codec.decode_b r.content in
        broker_in_commit be size_of p c msg
        ≡ some (
          record { bc = bc; clock = (read_time c.clock).1 },
          map (seq_info_to p) (other_shards be p.shard_id bc.chain_config.shard_nums 0)
              ++ Out.to_supervisor (
                  Payload.block_info (
                    dealt_info p r b
                      (record {
                        inner_shard_txs =
                            keep (λ tx. not (is_broker2_tx tx) && not (is_broker1_tx tx)) b.body;
                        broker1_txs =
                            keep (λ tx. not (is_broker2_tx tx) && is_broker1_tx tx) b.body;
                        broker2_txs = keep is_broker2_tx b.body;
                      })
                      0
                      (read_time c.clock).0))
                ∷ [],
        )
  unfolding broker_in_commit report_block
  broker_in_commit-reports p c msg r bc held added leader =
      rw (held, broker_in_commit)
        (rw added (
          rw (deal_txs-kept (be.codec.decode_b r.content).body)
            (rw ((nat_beq_iff p.node_id p.view).1 leader) refl)))
