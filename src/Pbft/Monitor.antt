-- ===== src/Pbft/Monitor.antt =====
-- messageHandle.go, Propose: the monitor, which looks at the stage once a second. A round of it is
-- one step; `partition_on` is the signal of the CLPA module when it looks, and the view change that
-- it starts is a step of its own. `none` is the fatal error of a mutex that is not held.
use blockchain_sharding.Base.{
  ℕ, ◌+◌, ◌≤◌, Bool, true, false, not, ◌&&◌, Option, none, some, List, [], ◌∷◌, nat_beq,
  nat_beq_iff, ltb, if◌then◌else◌, ◌≡◌, refl, sym, ◌∙◌, subst, arith, ◌>>=◌, Bytes, Bool-cases, inl,
  inr,
}
use blockchain_sharding.Pbft.Messages.{Request}
use blockchain_sharding.Pbft.Node.{PbftState}
use blockchain_sharding.Pbft.Interface.{ExtraOpInConsensus}
use blockchain_sharding.Pbft.Handlers.{Outcome, release_sequence_lock, propose}
use blockchain_sharding.Relay.Inside.{Clock, read_time}

-- The stage that was seen last, and when it was seen to change.
pub record Watch : Type 0 where
  pub last_stage : ℕ
  pub last_stage_change_time : ℕ

-- What the monitor changes.
pub record Watched : Type 0 where
  pub watch : Watch
  pub pbft : PbftState
  pub clock : Clock

unfoldable start_watch : PbftState → Clock → Watched
start_watch p c =
    let (now, clock) = read_time c in
    record {
      watch = record { last_stage = p.pbft_stage; last_stage_change_time = now };
      pbft = p;
      clock = clock;
    }

-- The inner branch, with the time that was read at the start of the round.
unfoldable pub force_release : ℕ → Watched → Option Watched
force_release now s =
    if ltb (s.watch.last_stage_change_time + 30000) now
    then (do
      let (later, clock) = read_time s.clock
      p ← release_sequence_lock (record (s.pbft) { pbft_stage = 1 })
      some (record {
        watch = record (s.watch) { last_stage_change_time = later };
        pbft = p;
        clock = clock;
      }))
    else some s

-- The reset of a stage that has lasted for more than 30 seconds.
unfoldable pub reset_stage : ℕ → Watched → Option Watched
unfolding force_release
reset_stage now s =
    let (later, clock) = read_time s.clock in
    force_release now (record {
      watch = record (s.watch) { last_stage_change_time = later };
      pbft = record (s.pbft) { pbft_stage = 1 };
      clock = clock;
    })

-- The time limit of the view change, and whether it is over.
unfoldable pub check_commit_time : ℕ → Watched → Watched × Bool
check_commit_time timeout s =
    let (now, clock) = read_time s.clock in
    let (commit_time, clock') = read_time clock in
    if ltb (s.pbft.last_commit_time + timeout) now
    then (
      record s { pbft = record (s.pbft) { last_commit_time = commit_time }; clock = clock' },
      true,
    )
    else (record s { clock = clock }, false)

-- A round: the state after it, and whether it starts a view change.
unfoldable pub watch_round : ℕ → Bool → Watched → Option (Watched × Bool)
unfolding reset_stage check_commit_time
watch_round timeout partition_on s = do
  let stage = s.pbft.pbft_stage
  let (now, clock) = read_time s.clock
  let seen : Watch =
      if nat_beq stage s.watch.last_stage
      then s.watch
      else record { last_stage = stage; last_stage_change_time = now }
  let s1 : Watched = record s { watch = seen; clock = clock }
  s2 ←
      if partition_on && not (nat_beq stage 1) && ltb (seen.last_stage_change_time + 30000) now
      then reset_stage now s1
      else some s1
  some (check_commit_time timeout s2)

unfoldable pub watch_rounds : ℕ → List Bool → Watched → Option Watched
unfolding watch_round
watch_rounds timeout [] s = some s
watch_rounds timeout (on ∷ signals) s = elim (watch_round timeout on s) [
  | none ↦ none
  | some next ↦ watch_rounds timeout signals next.0
]

-- The clock does not go back.
abbrev IsSteady : Clock → Type 0
IsSteady c = (i j : ℕ) → i ≤ j → c.at i ≤ c.at j

-- What the rounds leave alone.
abbrev SameLock : Watched → Watched → Type 0
SameLock s s' =
    (s'.pbft.sequence_lock ≡ s.pbft.sequence_lock)
    × (s'.pbft.view ≡ s.pbft.view)
    × (s'.pbft.node_id ≡ s.pbft.node_id)
    × (s'.clock.at ≡ s.clock.at)

never_released :
    (now : ℕ) (s : Watched)
    → IsSteady s.clock
    → now ≤ s.clock.at s.clock.reads
    → (s' : Watched) × (reset_stage now s ≡ some s') × SameLock s s'
unfolding reset_stage force_release
never_released now s steady earlier =
    let (later, clock) = read_time s.clock in
    (
      record {
        watch = record (s.watch) { last_stage_change_time = later };
        pbft = record (s.pbft) { pbft_stage = 1 };
        clock = clock;
      },
      ground (arith, earlier),
      (refl, refl, refl, refl),
    )

SameLock-trans : (s s' s'' : Watched) → SameLock s s' → SameLock s' s'' → SameLock s s''
SameLock-trans s s' s'' (a, b, c, d) (a', b', c', d') = (a' ∙ a, b' ∙ b, c' ∙ c, d' ∙ d)

may_reset :
    (now : ℕ) (b : Bool) (s : Watched)
    → IsSteady s.clock
    → now ≤ s.clock.at s.clock.reads
    → (s' : Watched) × ((if b then reset_stage now s else some s) ≡ some s') × SameLock s s'
may_reset now true s steady earlier = never_released now s steady earlier
may_reset now false s steady earlier = (s, refl, (refl, refl, refl, refl))

check_commit_time-SameLock :
    (timeout : ℕ) (s : Watched) → SameLock s (check_commit_time timeout s).0
unfolding check_commit_time
check_commit_time-SameLock timeout s =
    elim (Bool-cases (ltb (s.pbft.last_commit_time + timeout) (s.clock.at s.clock.reads))) [
      | inl e ↦ rw e (refl, refl, refl, refl)
      | inr e ↦ rw e (refl, refl, refl, refl)
    ]

watch_round-SameLock :
    (timeout : ℕ) (on : Bool) (s : Watched)
    → IsSteady s.clock
    → (next : Watched × Bool) × (watch_round timeout on s ≡ some next) × SameLock s next.0
unfolding watch_round
watch_round-SameLock timeout on s steady =
    let stage = s.pbft.pbft_stage in
    let (now, clock) = read_time s.clock in
    let seen : Watch =
      if nat_beq stage s.watch.last_stage
      then s.watch
      else record { last_stage = stage; last_stage_change_time = now } in
    let s1 : Watched = record s { watch = seen; clock = clock } in
    let stays = on && not (nat_beq stage 1) && ltb (seen.last_stage_change_time + 30000) now in
    let (s2, reset, same) =
      may_reset now stays s1 steady (steady s.clock.reads (s.clock.reads + 1) (omega arith)) in
    (
      check_commit_time timeout s2,
      rw reset refl,
      SameLock-trans s s2 (check_commit_time timeout s2).0 same
          (check_commit_time-SameLock timeout s2),
    )

watch_rounds-SameLock :
    (timeout : ℕ) (signals : List Bool) (s : Watched)
    → IsSteady s.clock
    → (s' : Watched) × (watch_rounds timeout signals s ≡ some s') × SameLock s s'
unfolding watch_rounds
watch_rounds-SameLock timeout [] s steady = (s, refl, (refl, refl, refl, refl))
watch_rounds-SameLock timeout (on ∷ signals) s steady =
    let (next, run, same) = watch_round-SameLock timeout on s steady in
    let (s', runs, later) =
      watch_rounds-SameLock timeout signals next.0
        (subst (λ at. (i j : ℕ) → i ≤ j → at i ≤ at j) (sym same.3) steady) in
    (s', rw (run, watch_rounds) runs, SameLock-trans s next.0 s' same later)

module _ (M : Type 0) (ihm : ExtraOpInConsensus M) (get_digest : Request → Bytes) where
  -- A leader whose sequence lock is held, in a stage that lasts: however many rounds its monitor
  -- makes, with whatever signals, while the clock does not go back, none of them is a fatal error,
  -- the lock stays held, and a proposal has to wait.
  pub propose_after_watch_rounds :
      (timeout : ℕ) (signals : List Bool) (s : Watched) (chain : M)
      → IsSteady s.clock
      → s.pbft.sequence_lock ≡ true
      → s.pbft.view ≡ s.pbft.node_id
      → (s' : Watched) × (watch_rounds timeout signals s ≡ some s')
        × (s'.pbft.sequence_lock ≡ true)
        × (propose M ihm get_digest (record { pbft = s'.pbft; chain = chain }) ≡ some Outcome.waits)
  unfolding propose
  propose_after_watch_rounds timeout signals s chain steady held leader =
      let (s', run, (lock, view, id, at)) = watch_rounds-SameLock timeout signals s steady in
      (
        s',
        run,
        lock ∙ held,
        rw ((nat_beq_iff s'.pbft.view s'.pbft.node_id).1 (view ∙ leader ∙ sym id))
            (rw (lock ∙ held) refl),
      )
