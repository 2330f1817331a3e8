-- ===== src/Supervisor/Stops.antt =====
-- When the supervisor stops the nodes (supervisor/supervisor.go, supervisorStopModule.go).
use blockchain_sharding.Base.{
  ℕ, ◌+◌, ◌≤◌, true, List, [], ◌∷◌, ◌++◌, ◌≡◌, refl, ap, ◌∙◌, ◌↔◌, ◌⊎◌, arith, All, length, nat_beq,
  inl, inr, Bool-cases,
}
use blockchain_sharding.Pbft.Messages.{BlockInfoMsg}
use blockchain_sharding.Supervisor.Signal.{
  StopSignal, new_stop_signal, stop_gap_inc, stop_gap_reset, gap_enough,
}
use blockchain_sharding.Supervisor.Handling.{check_stop}

-- The signal after the block infos, oldest first.
unfoldable pub check_stops : List BlockInfoMsg → StopSignal → StopSignal
unfolding check_stop
check_stops [] ss = ss
check_stops (b ∷ bs) ss = check_stops bs (check_stop b ss)

abbrev pub IsEmptyBlock : BlockInfoMsg → Type 0
IsEmptyBlock b = b.block_body_length ≡ 0

-- The block infos end in at least that many of empty blocks.
abbrev pub EndsEmpty : ℕ → List BlockInfoMsg → Type 0
EndsEmpty n bs =
    (before : List BlockInfoMsg) × (last : List BlockInfoMsg) × (bs ≡ before ++ last)
    × (n ≤ length last)
    × All IsEmptyBlock last

check_stops-append :
    (xs ys : List BlockInfoMsg) (ss : StopSignal)
    → check_stops (xs ++ ys) ss ≡ check_stops ys (check_stops xs ss)
unfolding check_stops
check_stops-append [] ys ss = refl
check_stops-append (x ∷ xs) ys ss = check_stops-append xs ys (check_stop x ss)

check_stops-stop_threshold :
    (bs : List BlockInfoMsg) (ss : StopSignal)
    → (check_stops bs ss).stop_threshold ≡ ss.stop_threshold
unfolding check_stops check_stop stop_gap_inc stop_gap_reset
check_stops-stop_threshold [] ss = refl
check_stops-stop_threshold (b ∷ bs) ss =
    check_stops-stop_threshold bs (check_stop b ss) ∙ ground arith

empty_blocks-gap :
    (bs : List BlockInfoMsg) (ss : StopSignal)
    → All IsEmptyBlock bs
    → (check_stops bs ss).stop_gap ≡ ss.stop_gap + length bs
unfolding check_stops check_stop stop_gap_inc
empty_blocks-gap [] ss h = omega arith
empty_blocks-gap (b ∷ bs) ss (e, h) = ground (arith, empty_blocks-gap bs (stop_gap_inc ss) h, e)

-- The gap is the run of empty blocks at the end.
gap-run :
    (bs : List BlockInfoMsg) (ss : StopSignal)
    → (All IsEmptyBlock bs × ((check_stops bs ss).stop_gap ≡ ss.stop_gap + length bs))
      ⊎ EndsEmpty (check_stops bs ss).stop_gap bs
unfolding check_stops check_stop stop_gap_inc stop_gap_reset
gap-run [] ss = inl (tt, omega arith)
gap-run (b ∷ bs) ss = elim (gap-run bs (check_stop b ss)) [
  | inr (before, last, e, long, empty) ↦ inr (b ∷ before, last, ap (λ l. b ∷ l) e, long, empty)
  | inl (empty, gap) ↦ elim (Bool-cases (nat_beq b.block_body_length 0)) [
    | inl e ↦ inl ((ground (arith, e), empty), ground (arith, gap, e))
    | inr e ↦ inr (b ∷ [], bs, refl, ground (arith, gap, e), empty)
  ]
]

-- For every sequence of block infos and every threshold: once the sequence ends in at least as many
-- empty blocks as the threshold says, whatever came before, the gap is enough to stop the nodes;
-- and it is enough only then.
pub check_stops-gap_enough :
    (threshold : ℕ) (bs : List BlockInfoMsg)
    → (gap_enough (check_stops bs (new_stop_signal threshold)) ≡ true) ↔ EndsEmpty threshold bs
unfolding gap_enough new_stop_signal
check_stops-gap_enough threshold bs =
    let ss = new_stop_signal threshold in
    let kept = check_stops-stop_threshold bs ss in
    (
      λ h. elim (gap-run bs ss) [
        | inl (empty, gap) ↦ ([], bs, refl, ground (arith, h, kept, gap), empty)
        | inr (before, last, e, long, empty) ↦
            (before, last, e, ground (arith, h, kept, long), empty)
      ],
      λ (before, last, e, long, empty).
          let split : check_stops bs ss ≡ check_stops last (check_stops before ss) =
            ap (λ l. check_stops l ss) e ∙ check_stops-append before last ss in
          ground (
            arith,
            kept,
            long,
            ap (λ s. s.stop_gap) split,
            empty_blocks-gap last (check_stops before ss) empty,
          ),
    )
