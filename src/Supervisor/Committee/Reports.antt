-- ===== src/Supervisor/Committee/Reports.antt =====
-- The shards that have reported an epoch (committee_clpa.go, recordEpochAck), as the maps of the
-- code hold them, and as a list of the reports has them.
use blockchain_sharding.Base.{
  ℕ, Bool, true, false, ◌&&◌, enter, distinct, length-enter, Option, none, some, List, [], ◌∷◌,
  Dict, lookup, lookup_or, insert, nat_beq, ltb, leb, if◌then◌else◌, length, nat_eq, ◌≡◌, refl, ap,
  ◌∙◌, arith, Bool-cases, inl, inr, nat_beq_iff, lookup-insert,
}
use blockchain_sharding.Supervisor.Committee.Epochs.{enter_ack}

-- Whether as many shards as there are have reported the epoch.
abbrev pub is_full : ℕ → Dict ℕ (Dict ℕ Bool) → ℕ → Bool
is_full shard_num acks epoch = elim (lookup epoch acks) [
  | none ↦ false
  | some shards ↦ leb shard_num (length shards)
]

-- The reports, a shard and an epoch each, as the maps of the code, newest first.
abbrev pub all_acks : List (ℕ × ℕ) → Dict ℕ (Dict ℕ Bool)
all_acks [] = []
all_acks ((shard_id, epoch) ∷ rest) = enter_ack shard_id epoch (all_acks rest)

-- Specification: the shards that report an epoch, once for each report, and whether there is one
-- and there are as many different ones as there are shards.
abbrev pub reporters : ℕ → List (ℕ × ℕ) → List ℕ
reporters e [] = []
reporters e ((shard_id, epoch) ∷ rest) =
    if nat_beq epoch e then shard_id ∷ reporters e rest else reporters e rest

abbrev pub all_report : ℕ → List (ℕ × ℕ) → ℕ → Bool
all_report shard_num reports e =
    ltb 0 (length (reporters e reports)) && leb shard_num (distinct (reporters e reports))

abbrev entered : List ℕ → Option (Dict ℕ Bool)
entered [] = none
entered (s ∷ l) = some (enter (s ∷ l))

entered-or : (l : List ℕ) → (elim (entered l) [ none ↦ [] | some m ↦ m ]) ≡ enter l
entered-or [] = refl
entered-or (s ∷ l) = refl

all_acks-reporters :
    (e : ℕ) (reports : List (ℕ × ℕ)) → lookup e (all_acks reports) ≡ entered (reporters e reports)
all_acks-reporters e [] = refl
all_acks-reporters e ((shard_id, epoch) ∷ rest) =
    let more = insert shard_id true (lookup_or epoch [] (all_acks rest)) in
    lookup-insert epoch e more (all_acks rest) ∙ (elim (Bool-cases (nat_beq epoch e)) [
      | inl same ↦
          let here : epoch ≡ e = (nat_beq_iff epoch e).0 same in
          ground (
            arith,
            same,
            ap (λ o. insert shard_id true (elim o [ none ↦ [] | some m ↦ m ]))
                (ap (λ k. lookup k (all_acks rest)) here ∙ all_acks-reporters e rest),
            entered-or (reporters e rest),
          )
      | inr other ↦ ground (arith, other, all_acks-reporters e rest)
    ])

pub is_full-all_report :
    (shard_num e : ℕ) (reports : List (ℕ × ℕ))
    → is_full shard_num (all_acks reports) e ≡ all_report shard_num reports e
is_full-all_report shard_num e reports =
    ap (λ o. elim o [ none ↦ false | some shards ↦ leb shard_num (length shards) ])
      (all_acks-reporters e reports)
    ∙ of_entered (reporters e reports)
  where
    of_entered :
        (l : List ℕ)
        → (elim (entered l) [ none ↦ false | some shards ↦ leb shard_num (length shards) ])
          ≡ (ltb 0 (length l) && leb shard_num (distinct l))
    of_entered [] = refl
    of_entered (s ∷ l) = ground (arith, length-enter (s ∷ l))
