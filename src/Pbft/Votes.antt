-- ===== src/Pbft/Votes.antt =====
-- The vote counters of messageHandle.go and set2DMap (toolFuncs.go), which are keyed by the address
-- of the decoded sender: decoding allocates a new one for every message.
use blockchain_sharding.Base.{
  ℕ, zero, suc, ◌+◌, ◌*◌, ◌≡◌, ◌≤◌, ◌<◌, refl, sym, ap, subst, ◌∙◌, Bool, true, false, Option, none,
  some, [], ◌∷◌, Bytes, Dict, lookup, lookup_or, insert, contains, nat_eq, bytes_eq, nat_beq_iff,
  u64, if◌then◌else◌, length, arith, Option-cases, Bool-cases, lookup-insert_self, length-insert,
}
use blockchain_sharding.Pbft.Messages.{Request, Prepare}
use blockchain_sharding.Pbft.Node.{PbftState, Node, Votes, set_2d_map}
use blockchain_sharding.Pbft.Interface.{ExtraOpInConsensus}
use blockchain_sharding.Pbft.Handlers.{
  Outcome, ran, quorum, handle_prepare, vote_prepare, prepare_votes, accept_prepare, try_commit,
}

-- Every address in use is below the next one.
abbrev pub Below : ℕ → Dict ℕ Bool → Type 0
Below n [] = Unit {0}
Below n ((a, b) ∷ m) = (a < n) × Below n m

lookup-Below : (n : ℕ) (m : Dict ℕ Bool) → Below n m → lookup n m ≡ none
lookup-Below n [] h = refl
lookup-Below n ((a, b) ∷ m) h = ground (arith, lookup-Below n m h.1)

Below-suc : (n : ℕ) (m : Dict ℕ Bool) → Below n m → Below (n + 1) m
Below-suc n [] h = tt
Below-suc n ((a, b) ∷ m) h = (omega arith, Below-suc n m h.1)

Below-insert : (n : ℕ) (m : Dict ℕ Bool) → Below n m → Below (n + 1) (insert n true m)
Below-insert n [] h = omega arith
Below-insert n ((a, b) ∷ m) h = ground (arith, Below-insert n m h.1, Below-suc n m h.1)

-- The prepare votes for a digest are entered under addresses that were allocated before.
abbrev pub IsFresh : Bytes → PbftState → Type 0
IsFresh d p = Below p.next_addr (lookup_or d [] p.cnt_prepare_confirm)

-- What set2DMap does to the inner map of its key.
set_2d_map_lem :
    (d : Bytes) (a : ℕ) (m : Votes)
    → lookup_or d [] (set_2d_map d a m) ≡ insert a true (lookup_or d [] m)
set_2d_map_lem d a m =
    grind (arith, lookup-insert_self d, Bool-cases (contains d m), Option-cases (lookup d m))

vote_prepare_lem :
    (d : Bytes) (p : PbftState)
    → IsFresh d p
    → (prepare_votes (vote_prepare d p) d ≡ suc (prepare_votes p d)) × IsFresh d (vote_prepare d p)
unfolding vote_prepare
vote_prepare_lem d p h =
    let votes : Dict ℕ Bool = lookup_or d [] p.cnt_prepare_confirm in
    let e = set_2d_map_lem d p.next_addr p.cnt_prepare_confirm in
    (
      ap length e
          ∙ length-insert p.next_addr true votes
          ∙ ap (λ b. if b then length votes else suc (length votes))
              (ap (λ r. elim r [ none ↦ false | some _ ↦ true ])
                (lookup-Below p.next_addr votes h)),
      subst (Below (p.next_addr + 1)) (sym e) (Below-insert p.next_addr votes h),
    )

module _ (M : Type 0) (ihm : ExtraOpInConsensus M) (get_digest : Request → Bytes) where
  -- The node would take the message in the view `v`.
  pub record IsReady (v : ℕ) (msg : Prepare) (n : Node M) : Type 0 where
    pub stage : 2 ≤ n.pbft.pbft_stage
    pub seq : n.pbft.sequence_id ≡ msg.seq_id
    pub view : n.pbft.view ≡ v
    pub pooled : contains msg.digest n.pbft.request_pool ≡ true
    pub fresh : IsFresh msg.digest n.pbft

  -- The same message is delivered `k` times.
  unfoldable pub deliver : ℕ → ℕ → Prepare → Node M → Option (Node M)
  deliver zero v msg n = some n
  deliver (suc k) v msg n = elim (deliver k v msg n) [
    | none ↦ none
    | some n' ↦ elim (handle_prepare M ihm get_digest v msg n') [
      | none ↦ none
      | some o ↦ elim o [
        | Outcome.waits ↦ none
        | Outcome.ran n'' ↦ some n''
        | Outcome.stuck n'' ↦ none
      ]
    ]
  ]

  -- The state after one delivery.
  abbrev pub counted : Prepare → Node M → Node M
  counted msg n = record n {
    pbft = try_commit M ihm get_digest msg (vote_prepare msg.digest n.pbft);
  }

  module _
      (calm : (p : PbftState) (c : M) (m : Prepare) → ihm.handle_in_prepare p c m ≡ some c) where
    handle_prepare-runs :
        (v : ℕ) (msg : Prepare) (n : Node M)
        → IsReady v msg n
        → handle_prepare M ihm get_digest v msg n ≡ some (ran (counted msg n))
    unfolding handle_prepare accept_prepare
    handle_prepare-runs v msg n r = ground (
      arith,
      r.stage,
      r.seq,
      r.view,
      r.pooled,
      calm n.pbft n.chain msg,
      nat_beq_iff n.pbft.view v,
    )

    -- What trying to commit leaves as it was.
    try_commit-keeps :
        (msg : Prepare) (p : PbftState)
        → let p' = try_commit M ihm get_digest msg p in
          (p.pbft_stage ≤ p'.pbft_stage)
          × (p'.sequence_id ≡ p.sequence_id)
          × (p'.view ≡ p.view)
          × (p'.request_pool ≡ p.request_pool)
          × (p'.cnt_prepare_confirm ≡ p.cnt_prepare_confirm)
          × (p'.next_addr ≡ p.next_addr)
          × (p'.malicious_nums ≡ p.malicious_nums)
    unfolding try_commit
    try_commit-keeps msg p = ground arith

    -- With a quorum of votes the digest is marked.
    try_commit-marks :
        (msg : Prepare) (p : PbftState)
        → quorum p ≤ prepare_votes p msg.digest
        → lookup_or msg.digest false (try_commit M ihm get_digest msg p).is_commit_broadcast ≡ true
    unfolding try_commit
    try_commit-marks msg p q =
        ground (arith, q, lookup-insert_self msg.digest true p.is_commit_broadcast)

    counted-IsReady :
        (v : ℕ) (msg : Prepare) (n : Node M)
        → IsReady v msg n
        → IsReady v msg (counted msg n)
          × (prepare_votes (counted msg n).pbft msg.digest ≡ suc (prepare_votes n.pbft msg.digest))
          × (quorum (counted msg n).pbft ≡ quorum n.pbft)
    unfolding vote_prepare
    counted-IsReady v msg n r =
        let p : PbftState = vote_prepare msg.digest n.pbft in
        let voted = vote_prepare_lem msg.digest n.pbft r.fresh in
        let (stage, seq, view, pool, cnt, addr, f) = try_commit-keeps msg p in
        (
          (record {
            stage = ground (arith, stage, r.stage);
            seq = seq ∙ r.seq;
            view = view ∙ r.view;
            pooled = ap (contains msg.digest) pool ∙ r.pooled;
            fresh = ground (cnt, addr, voted.1, arith);
          }),
          ap (λ c. length (lookup_or msg.digest [] c)) cnt ∙ voted.0,
          ap (λ m. u64 (2 * m + 1)) f,
        )

    deliver_lem :
        (k v : ℕ) (msg : Prepare) (n : Node M)
        → IsReady v msg n
        → (n' : Node M) × (deliver k v msg n ≡ some n')
          × IsReady v msg n'
          × (prepare_votes n'.pbft msg.digest ≡ k + prepare_votes n.pbft msg.digest)
          × (quorum n'.pbft ≡ quorum n.pbft)
    unfolding deliver
    deliver_lem zero v msg n r = (n, refl, r, omega arith, refl)
    deliver_lem (suc k) v msg n r =
        let (n', e, ready, votes, q) = deliver_lem k v msg n r in
        let (ready', votes', q') = counted-IsReady v msg n' ready in
        (
          counted msg n',
          rw (e, handle_prepare-runs v msg n' ready) refl,
          ready',
          ground (arith, votes, votes'),
          q' ∙ q,
        )

    -- A prepare message for a pooled request of the current sequence number, which the same sender
    -- sends 2 f + 1 times to a node in stage 2 or later with no change of view, is enough: every
    -- delivery runs, each counts as one more vote, and after the last the node has marked the
    -- digest as broadcast for commit, where the message module takes every prepare message and the
    -- votes that the node holds are entered under addresses that were allocated before.
    pub resent_prepare_suffices :
        (k v : ℕ) (msg : Prepare) (n : Node M)
        → IsReady v msg n
        → quorum n.pbft ≡ suc k
        → (n' : Node M) × (deliver (suc k) v msg n ≡ some n')
          × (prepare_votes n'.pbft msg.digest ≡ suc k + prepare_votes n.pbft msg.digest)
          × (lookup_or msg.digest false n'.pbft.is_commit_broadcast ≡ true)
    unfolding deliver vote_prepare
    resent_prepare_suffices k v msg n r q =
        let (n', e, ready, votes, q') = deliver_lem k v msg n r in
        let (ready', votes', q'') = counted-IsReady v msg n' ready in
        let voted = vote_prepare_lem msg.digest n'.pbft ready.fresh in
        (
          counted msg n',
          rw (e, handle_prepare-runs v msg n' ready) refl,
          ground (arith, votes, votes'),
          try_commit-marks msg (vote_prepare msg.digest n'.pbft)
              (ground (arith, voted.0, votes, q', q)),
        )
