-- ===== src/Broker/Parts.antt =====
-- The parts of a transaction across shards and the shards that they go to (txSending of
-- committee_broker.go and committee_clpa_broker.go).
use blockchain_sharding.Base.{
  ℕ, ◌<◌, Bool, false, Option, none, some, List, [], ◌∷◌, Bytes, ℤ, nat_beq, keep, All, map,
  if◌then◌else◌, ◌≡◌, refl, sym, ap, ◌∙◌, subst, Bool-cases, inl, inr, bytes_eq, ◌>>=◌,
}
use blockchain_sharding.Core.Transaction.{Transaction}
use blockchain_sharding.Supervisor.Committee.Sending.{InjectTxs, tx_sending}
use blockchain_sharding.Supervisor.Committee.Delivered.{got, goes_to, tx_sending-got}
use blockchain_sharding.Broker.State.{BrokerRawMeg, Broker, is_broker}
use blockchain_sharding.Broker.Desk.{route}

keep-map :
    {A B : Type 0} (f : A → B) (p : A → Bool) (q : B → Bool) (xs : List A)
    → ((x : A) → p x ≡ q (f x))
    → map f (keep p xs) ≡ keep q (map f xs)
keep-map f p q [] same = refl
keep-map f p q (x ∷ xs) same = elim (Bool-cases (q (f x))) [
  | inl e ↦ rw (same x, e) (ap (λ l. f x ∷ l) (keep-map f p q xs same))
  | inr e ↦ rw (same x, e) (keep-map f p q xs same)
]

pub keep-cong :
    {A : Type 0} (p q : A → Bool) (xs : List A) → All (λ x. p x ≡ q x) xs → keep p xs ≡ keep q xs
keep-cong p q [] same = refl
keep-cong p q (x ∷ xs) (e, same) = rw (e, keep-cong p q xs same) refl

pub All-map :
    {A B : Type 0} (P : B → Type 0) (f : A → B) (xs : List A)
    → All (λ x. P (f x)) xs
    → All P (map f xs)
All-map P f [] h = tt
All-map P f (x ∷ xs) (p, h) = (p, All-map P f xs h)

All-unmap :
    {A B : Type 0} (P : B → Type 0) (f : A → B) (xs : List A)
    → All P (map f xs)
    → All (λ x. P (f x)) xs
All-unmap P f [] h = tt
All-unmap P f (x ∷ xs) (p, h) = (p, All-unmap P f xs h)

-- Who pays, who is paid, how much, and for which transaction.
abbrev pub Terms : Type 0
Terms = Bytes × Bytes × ℤ × Bytes

abbrev pub terms : Transaction → Terms
terms tx = (tx.sender, tx.recipient, tx.value, tx.raw_tx_hash)

-- The terms of the second part: from a broker to the recipient.
abbrev pub second_part : Bytes → BrokerRawMeg → Terms
second_part addr m = (addr, m.tx.recipient, m.tx.value, m.tx.tx_hash)

-- Whether an account is in a shard.
abbrev pub is_at : (Bytes → Option ℕ) → ℕ → Bytes → Bool
is_at shard_of sid address = elim (shard_of address) [ none ↦ false | some s ↦ nat_beq s sid ]

abbrev pub HasShard : (Bytes → Option ℕ) → Bytes → Type 0
HasShard shard_of address = (s : ℕ) × (shard_of address ≡ some s)

pub All-imp :
    {A : Type 0} (P Q : A → Type 0) (xs : List A) → ((x : A) → P x → Q x) → All P xs → All Q xs
All-imp P Q [] f h = tt
All-imp P Q (x ∷ xs) f (p, h) = (f x p, All-imp P Q xs f h)

pub everywhere : {A : Type 0} (P : A → Type 0) (xs : List A) → ((x : A) → P x) → All P xs
everywhere P [] f = tt
everywhere P (x ∷ xs) f = (f x, everywhere P xs f)

pub map-map :
    {A B C : Type 0} (f : B → C) (g : A → B) (xs : List A)
    → map f (map g xs) ≡ map (λ x. f (g x)) xs
map-map f g [] = refl
map-map f g (x ∷ xs) = ap (λ l. f (g x) ∷ l) (map-map f g xs)

module _ (shard_of : Bytes → Option ℕ) where
  -- The shard for some terms, and whether it is `sid`.
  abbrev pub terms_route : Broker → Terms → Option ℕ
  terms_route b t = shard_of t.0 >>= λ sid. if is_broker b t.0 then shard_of t.1 else some sid

  abbrev pub terms_at : Broker → ℕ → Terms → Bool
  terms_at b sid t = elim (terms_route b t) [ none ↦ false | some s ↦ nat_beq s sid ]

  abbrev pub HasRoute : Broker → Terms → Type 0
  HasRoute b t = (s : ℕ) × (terms_route b t ≡ some s)

module _ (tx_digest : Transaction → Bytes) (raw_digest : BrokerRawMeg → Bytes) (shard_num : ℕ)
    (speed : ℕ) (shard_of : Bytes → Option ℕ) where
  pub tx_sending-terms :
      (sid : ℕ) (b : Broker) (txs : List Transaction) (ts : List Terms)
      → sid < shard_num
      → 0 < speed
      → map terms txs ≡ ts
      → All (HasRoute shard_of b) ts
      → (sent : List InjectTxs) × (tx_sending shard_num speed
            (route tx_digest raw_digest shard_num speed shard_of b)
            txs
          ≡ some sent)
        × (map terms (got sid sent) ≡ keep (terms_at shard_of b sid) ts)
  tx_sending-terms sid b txs ts small positive same h =
      let (sent, run, gets) =
        tx_sending-got shard_num speed (route tx_digest raw_digest shard_num speed shard_of b) sid
          txs small positive
          (All-unmap (HasRoute shard_of b) terms txs
            (subst (λ l. All (HasRoute shard_of b) l) (sym same) h)) in
      (
        sent,
        run,
        ap (map terms) gets
            ∙ keep-map terms (goes_to (route tx_digest raw_digest shard_num speed shard_of b) sid)
                (terms_at shard_of b sid) txs (λ tx. refl)
            ∙ ap (keep (terms_at shard_of b sid)) same,
      )
