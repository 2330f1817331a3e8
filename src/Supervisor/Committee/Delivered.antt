-- ===== src/Supervisor/Committee/Delivered.antt =====
-- What reaches the shards (txSending of the committees).
use blockchain_sharding.Base.{
  ℕ, zero, suc, ◌<◌, Bool, true, false, Option, none, some, List, [], ◌∷◌, ◌++◌, append-nil,
  append_assoc, Dict, lookup_or, nat_beq, ltb, keep, if◌then◌else◌, ◌≡◌, refl, sym, ap, ◌∙◌, ◌⊎◌,
  arith, Bool-cases, inl, inr, nat_eq, nat_beq_iff, lookup_or-insert, All,
}
use blockchain_sharding.Core.Transaction.{Transaction}
use blockchain_sharding.Supervisor.Committee.Sending.{
  InjectTxs, send_to_all, put_in, is_time, send_from, tx_sending,
}

-- What a shard gets, in order.
abbrev pub got : ℕ → List InjectTxs → List Transaction
got sid [] = []
got sid (m ∷ sent) = if nat_beq m.to_shard_id sid then m.txs ++ got sid sent else got sid sent

got-append : (sid : ℕ) (xs ys : List InjectTxs) → got sid (xs ++ ys) ≡ got sid xs ++ got sid ys
got-append sid [] ys = refl
got-append sid (x ∷ xs) ys = elim (Bool-cases (nat_beq x.to_shard_id sid)) [
  | inl e ↦ rw e (rw (got-append sid xs ys) (sym (append_assoc x.txs (got sid xs) (got sid ys))))
  | inr e ↦ rw e (got-append sid xs ys)
]

got-send_to_all :
    (sid n : ℕ) (pending : Dict ℕ (List Transaction))
    → got sid (send_to_all n pending) ≡ (if ltb sid n then lookup_or sid [] pending else [])
unfolding send_to_all
got-send_to_all sid zero pending = ground arith
got-send_to_all sid (suc n) pending =
    got-append sid (send_to_all n pending)
      (record { txs = lookup_or n [] pending; to_shard_id = n } ∷ [])
    ∙ (elim (Bool-cases (nat_beq n sid)) [
      | inl e ↦
          rw (got-send_to_all sid n pending, e)
            (ground (
              arith,
              append-nil (lookup_or n [] pending),
              nat_beq_iff n sid,
              e,
              ap (λ k. lookup_or k [] pending) ((nat_beq_iff n sid).0 e),
            ))
      | inr e ↦
          rw (got-send_to_all sid n pending, e)
            (ground (
              arith,
              append-nil (got sid (send_to_all n pending)),
              append-nil (lookup_or sid [] pending),
              nat_beq_iff n sid,
              e,
            ))
    ])

abbrev pub goes_to : (Transaction → Option ℕ) → ℕ → Transaction → Bool
goes_to tx_shard sid tx = elim (tx_shard tx) [ none ↦ false | some s ↦ nat_beq s sid ]

module _ (shard_num : ℕ) (speed : ℕ) (tx_shard : Transaction → Option ℕ) where
  abbrev pub HasTxShard : Transaction → Type 0
  HasTxShard tx = (s : ℕ) × (tx_shard tx ≡ some s)

  flushed :
      (sid : ℕ) (pending : Dict ℕ (List Transaction)) (b : Bool)
      → sid < shard_num
      → got sid (if b then send_to_all shard_num pending else [])
          ++ lookup_or sid [] (if b then [] else pending)
        ≡ lookup_or sid [] pending
  flushed sid pending false small = refl
  flushed sid pending true small =
      append-nil (got sid (send_to_all shard_num pending))
      ∙ got-send_to_all sid shard_num pending
      ∙ ground arith

  last_flush :
      (sid : ℕ) (pending : Dict ℕ (List Transaction)) (b : Bool)
      → sid < shard_num
      → (b ≡ true) ⊎ (pending ≡ [])
      → got sid (if b then send_to_all shard_num pending else []) ≡ lookup_or sid [] pending ++ []
  last_flush sid pending true small ready =
      got-send_to_all sid shard_num pending
      ∙ ground arith
      ∙ sym (append-nil (lookup_or sid [] pending))
  last_flush sid pending false small (inl e) = absurd (ground (arith, e))
  last_flush sid pending false small (inr e) = ground (arith, e)

  put_in-got :
      (sid s : ℕ) (tx : Transaction) (kept : Dict ℕ (List Transaction)) (rest : List Transaction)
      → lookup_or sid [] (put_in s tx kept) ++ rest
        ≡ lookup_or sid [] kept ++ (if nat_beq s sid then tx ∷ rest else rest)
  put_in-got sid s tx kept rest =
      ap (λ l. l ++ rest) (lookup_or-insert s sid [] (lookup_or s [] kept ++ tx ∷ []) kept)
      ∙ (elim (Bool-cases (nat_beq s sid)) [
        | inl e ↦ rw e (
            append_assoc (lookup_or s [] kept) (tx ∷ []) rest
            ∙ ap (λ k. lookup_or k [] kept ++ tx ∷ rest) ((nat_beq_iff s sid).0 e))
        | inr e ↦ rw e refl
      ])

  send_from-got :
      (sid idx : ℕ) (txs : List Transaction) (pending : Dict ℕ (List Transaction))
      → sid < shard_num
      → (ltb 0 idx ≡ true) ⊎ (pending ≡ [])
      → All HasTxShard txs
      → (sent : List InjectTxs) × (send_from shard_num speed tx_shard idx txs pending ≡ some sent)
        × (got sid sent ≡ lookup_or sid [] pending ++ keep (goes_to tx_shard sid) txs)
  unfolding send_from
  send_from-got sid idx [] pending small ready h = (
    if is_time speed idx [] then send_to_all shard_num pending else [],
    refl,
    last_flush sid pending (is_time speed idx []) small
        (elim ready [ inl later ↦ inl (ground (arith, later)) | inr none_yet ↦ inr none_yet ]),
  )
  send_from-got sid idx (tx ∷ txs) pending small ready ((s, e), h) =
      let now = is_time speed idx (tx ∷ txs) in
      let kept : Dict ℕ (List Transaction) = if now then [] else pending in
      let flush : List InjectTxs = if now then send_to_all shard_num pending else [] in
      let later = keep (goes_to tx_shard sid) txs in
      let here : goes_to tx_shard sid tx ≡ nat_beq s sid =
        ap (λ o. elim o [ none ↦ false | some k ↦ nat_beq k sid ]) e in
      let (rest, run, gets) =
        send_from-got sid (suc idx) txs (put_in s tx kept) small (inl (ground arith)) h in
      (
        flush ++ rest,
        rw (e, send_from) (rw run refl),
        got-append sid flush rest
            ∙ ap (λ l. got sid flush ++ l) (gets ∙ put_in-got sid s tx kept later)
            ∙ sym (
                append_assoc (got sid flush) (lookup_or sid [] kept)
                  (if nat_beq s sid then tx ∷ later else later))
            ∙ ap (λ l. l ++ (if nat_beq s sid then tx ∷ later else later))
                (flushed sid pending now small)
            ∙ ap (λ b. lookup_or sid [] pending ++ (if b then tx ∷ later else later)) (sym here),
      )

  -- A list of transactions that all have a shard to go to is sent without a panic where the speed
  -- is not zero, and what a shard that exists gets by all the messages, in their order, is the
  -- transactions that go to it, in the order of the list: each once.
  pub tx_sending-got :
      (sid : ℕ) (txs : List Transaction)
      → sid < shard_num
      → 0 < speed
      → All HasTxShard txs
      → (sent : List InjectTxs) × (tx_sending shard_num speed tx_shard txs ≡ some sent)
        × (got sid sent ≡ keep (goes_to tx_shard sid) txs)
  unfolding tx_sending
  tx_sending-got sid txs small positive h =
      let (sent, run, gets) = send_from-got sid 0 txs [] small (inr refl) h in
      (sent, ground (arith, run, nat_beq_iff speed 0), gets)
