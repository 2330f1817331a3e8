-- ===== src/Supervisor/Committee/Advance.antt =====
-- The epochs that all shards have reported (committee_clpa.go, recordEpochAck).
use blockchain_sharding.Base.{
  ℕ, zero, suc, ◌≤◌, ◌<◌, Bool, true, false, Option, none, some, List, [], ◌∷◌, Dict, lookup,
  lookup_or, insert, nat_beq, ltb, leb, if◌then◌else◌, length, nat_eq, ◌≡◌, refl, sym, ap, ◌∙◌,
  arith, Bool-cases, Option-cases, inl, inr, nat_beq_iff, lookup-insert, length-insert, All,
}
use blockchain_sharding.Supervisor.Committee.Epochs.{
  Epochs, start_epochs, delete, enter_ack, advance, record_epoch_ack,
}
use blockchain_sharding.Supervisor.Committee.Reports.{
  is_full, all_acks, all_report, is_full-all_report,
}

lookup-delete :
    {V : Type 0} (k j : ℕ) (m : Dict ℕ V)
    → lookup j (delete k m) ≡ (if nat_beq k j then none else lookup j m)
lookup-delete k j [] = ground arith
lookup-delete k j ((i, v) ∷ m) =
    ground (arith, lookup-delete k j m, nat_beq_iff i k, nat_beq_iff i j, nat_beq_iff k j)

length-delete_le : {V : Type 0} (k : ℕ) (m : Dict ℕ V) → length (delete k m) ≤ length m
length-delete_le k [] = omega arith
length-delete_le k ((i, v) ∷ m) = ground (arith, length-delete_le k m)

length-delete :
    {V : Type 0} (k : ℕ) (v : V) (m : Dict ℕ V)
    → lookup k m ≡ some v
    → length (delete k m) < length m
length-delete k v [] e = absurd (ground (arith, e))
length-delete k v ((i, w) ∷ m) e = elim (Bool-cases (nat_beq i k)) [
  | inl same ↦ ground (arith, same, length-delete_le k m)
  | inr other ↦
      let rest : length (delete k m) < length m = length-delete k v m (ground (arith, e, other)) in
      ground (arith, other, rest)
]

-- The epochs from the given one down to the first.
abbrev pub epochs_to : ℕ → List ℕ
epochs_to zero = []
epochs_to (suc n) = suc n ∷ epochs_to n

All-epochs_to : (P : ℕ → Type 0) (n : ℕ) → ((e : ℕ) → 1 ≤ e → e ≤ n → P e) → All P (epochs_to n)
All-epochs_to P zero h = tt
All-epochs_to P (suc n) h =
    (h (suc n) (omega arith) (omega arith), All-epochs_to P n (λ e one upto. h e one (omega arith)))

module _ (shard_num : ℕ) where
  -- What a list of reports makes of the epochs, newest report first.
  unfoldable pub record_epoch_acks : List (ℕ × ℕ) → Epochs
  record_epoch_acks [] = start_epochs
  record_epoch_acks ((shard_id, epoch) ∷ rest) =
      record_epoch_ack shard_num shard_id epoch (record_epoch_acks rest)

  abbrev next_epoch : Epochs → Epochs
  next_epoch st = record {
    cur_epoch = suc st.cur_epoch;
    epoch_shard_acks = delete (suc st.cur_epoch) st.epoch_shard_acks;
  }

  -- The reports of the epochs to come are all there, and the epochs so far are full.
  abbrev IsBehind : Epochs → Dict ℕ (Dict ℕ Bool) → Type 0
  IsBehind st acks =
      ((e : ℕ) → st.cur_epoch < e → lookup e st.epoch_shard_acks ≡ lookup e acks)
      × ((e : ℕ) → 1 ≤ e → e ≤ st.cur_epoch → is_full shard_num acks e ≡ true)

  -- And the next one is not.
  abbrev IsAt : Epochs → Dict ℕ (Dict ℕ Bool) → Type 0
  IsAt st acks = IsBehind st acks × (is_full shard_num acks (suc st.cur_epoch) ≡ false)

  advance-IsAt :
      (fuel : ℕ) (st : Epochs) (acks : Dict ℕ (Dict ℕ Bool))
      → length st.epoch_shard_acks ≤ fuel
      → IsBehind st acks
      → IsAt (advance shard_num fuel st) acks
  unfolding advance
  advance-IsAt zero st acks enough (same, full) = (
    (same, full),
    elim (Option-cases (lookup (suc st.cur_epoch) st.epoch_shard_acks)) [
      | inl e ↦ ground (arith, e, same (suc st.cur_epoch) (omega arith))
      | inr (v, e) ↦
          absurd (omega (arith, enough, length-delete (suc st.cur_epoch) v st.epoch_shard_acks e))
    ],
  )
  advance-IsAt (suc fuel) st acks enough (same, full) =
      go (lookup (suc st.cur_epoch) st.epoch_shard_acks) refl
        (advance-IsAt fuel (next_epoch st) acks)
    where
      go :
          (o : Option (Dict ℕ Bool))
          → lookup (suc st.cur_epoch) st.epoch_shard_acks ≡ o
          → (length (next_epoch st).epoch_shard_acks ≤ fuel
              → IsBehind (next_epoch st) acks
              → IsAt (advance shard_num fuel (next_epoch st)) acks)
          → IsAt (advance shard_num (suc fuel) st) acks
      go none e ih =
          rw (e, advance) ((same, full), ground (arith, e, same (suc st.cur_epoch) (omega arith)))
      go (some shards) e ih = elim (Bool-cases (ltb (length shards) shard_num)) [
        | inl few ↦
            rw (e, advance)
              (rw few ((same, full), ground (arith, e, few, same (suc st.cur_epoch) (omega arith))))
        | inr all ↦
            let now_full : is_full shard_num acks (suc st.cur_epoch) ≡ true =
              ground (arith, e, all, same (suc st.cur_epoch) (omega arith)) in
            rw (e, advance)
              (rw all (
                ih
                  (omega
                    (arith, enough, length-delete (suc st.cur_epoch) shards st.epoch_shard_acks e))
                  (
                    λ k later. ground (
                      arith,
                      lookup-delete (suc st.cur_epoch) k st.epoch_shard_acks,
                      same k (omega arith),
                      nat_beq_iff (suc st.cur_epoch) k,
                    ),
                    λ k one upto. elim (Bool-cases (nat_beq k (suc st.cur_epoch))) [
                      | inl last ↦ ground (arith, last, now_full, nat_beq_iff k (suc st.cur_epoch))
                      | inr before ↦
                          full k one (ground (arith, before, nat_beq_iff k (suc st.cur_epoch)))
                    ],
                  )))
      ]

  enter_ack-is_full :
      (shard_id epoch e : ℕ) (acks : Dict ℕ (Dict ℕ Bool))
      → is_full shard_num acks e ≡ true
      → is_full shard_num (enter_ack shard_id epoch acks) e ≡ true
  enter_ack-is_full shard_id epoch e acks h = ground (
    arith,
    h,
    lookup-insert epoch e (insert shard_id true (lookup_or epoch [] acks)) acks,
    nat_beq_iff epoch e,
    length-insert shard_id true (lookup_or epoch [] acks),
  )

  record_epoch_ack-IsAt :
      (shard_id epoch : ℕ) (st : Epochs) (acks : Dict ℕ (Dict ℕ Bool))
      → IsAt st acks
      → IsAt (record_epoch_ack shard_num shard_id epoch st) (enter_ack shard_id epoch acks)
  unfolding record_epoch_ack
  record_epoch_ack-IsAt shard_id epoch st acks ((same, full), not_full) =
      let more = λ (m : Dict ℕ (Dict ℕ Bool)). insert shard_id true (lookup_or epoch [] m) in
      let looked = λ (e : ℕ) (m : Dict ℕ (Dict ℕ Bool)). lookup-insert epoch e (more m) m in
      let still_full : (e : ℕ)
          → 1 ≤ e
          → e ≤ st.cur_epoch
          → is_full shard_num (enter_ack shard_id epoch acks) e ≡ true =
        λ e one upto. enter_ack-is_full shard_id epoch e acks (full e one upto) in
      elim (Bool-cases (leb epoch st.cur_epoch)) [
        | inl old ↦
            rw (old, record_epoch_ack)
              (
                (
                  λ e later. ground (arith, old, same e later, looked e acks, nat_beq_iff epoch e),
                  still_full,
                ),
                ground (
                  arith,
                  old,
                  not_full,
                  looked (suc st.cur_epoch) acks,
                  nat_beq_iff epoch (suc st.cur_epoch),
                ),
              )
        | inr new ↦
            rw (new, record_epoch_ack)
              (advance-IsAt (length (enter_ack shard_id epoch st.epoch_shard_acks))
                (record st { epoch_shard_acks = enter_ack shard_id epoch st.epoch_shard_acks })
                (enter_ack shard_id epoch acks) (omega arith)
                (
                  λ e later.
                      looked e st.epoch_shard_acks
                      ∙ ground (
                        arith,
                        new,
                        same e later,
                        ap (λ o. insert shard_id true (elim o [ none ↦ [] | some shards ↦ shards ]))
                            (same epoch (ground (arith, new))),
                      )
                      ∙ sym (looked e acks),
                  still_full,
                ))
      ]

  record_epoch_acks-IsAt :
      (reports : List (ℕ × ℕ)) → IsAt (record_epoch_acks reports) (all_acks reports)
  unfolding record_epoch_acks
  record_epoch_acks-IsAt [] = ((λ e later. refl, λ e one upto. absurd (omega arith)), refl)
  record_epoch_acks-IsAt ((shard_id, epoch) ∷ rest) =
      record_epoch_ack-IsAt shard_id epoch (record_epoch_acks rest) (all_acks rest)
        (record_epoch_acks-IsAt rest)

  -- Whatever reports come, of whatever shards and epochs and in whatever order: every epoch from the
  -- first up to the current one has been reported, and by at least as many different shards as there
  -- are, and of the next epoch this is not so. A shard that reports an epoch twice counts once, and
  -- neither a report that comes early nor one that comes late is lost.
  pub record_epoch_acks-all_report :
      (reports : List (ℕ × ℕ))
      → let epochs = record_epoch_acks reports in
        All (λ e. all_report shard_num reports e ≡ true) (epochs_to epochs.cur_epoch)
        × (all_report shard_num reports (suc epochs.cur_epoch) ≡ false)
  record_epoch_acks-all_report reports =
      let ((same, full), not_full) = record_epoch_acks-IsAt reports in
      let spec = λ (e : ℕ). sym (is_full-all_report shard_num e reports) in
      (
        All-epochs_to (λ e. all_report shard_num reports e ≡ true)
            (record_epoch_acks reports).cur_epoch (λ e one upto. spec e ∙ full e one upto),
        spec (suc (record_epoch_acks reports).cur_epoch) ∙ not_full,
      )
