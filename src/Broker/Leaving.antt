-- ===== src/Broker/Leaving.antt =====
-- Which accounts and transactions leave a shard of the CLPA-Broker mode in a re-partitioning, and
-- the partition after it (accountTransfermod_Broker.go, and Update_PartitionMap of the chain).
use blockchain_sharding.Base.{
  ℕ, zero, suc, ◌+◌, ◌<◌, ◌≤◌, ◌≡◌, ◌≢◌, refl, ap, ◌∙◌, inl, inr, nat_beq, nat_beq_iff, Bool, true,
  false, Option, none, some, List, [], ◌∷◌, Bytes, Dict, lookup, lookup_or, lookup-insert, contains,
  bytes_beq, bytes_beq_iff, bytes_eq, All, arith, if◌then◌else◌, Bool-cases, keep, ℕ_discrete,
  subst,
}
use blockchain_sharding.Core.Account.{AccountState}
use blockchain_sharding.Core.Transaction.{Transaction}
use blockchain_sharding.Chain.Backend.{Backend}
use blockchain_sharding.Chain.State.{
  BlockChain, get_partition_map, update_partition_map, fetch_from,
}
use blockchain_sharding.Pbft.Node.{PbftState}
use blockchain_sharding.Relay.Inside.{other_shards}
use blockchain_sharding.Clpa.Send.{side_by_side, accounts_for, addr_set, accounts_to_fetch, leaves}
use blockchain_sharding.Clpa.Transfer.{update_partition_maps}
use blockchain_sharding.Broker.State.{is_among}
use blockchain_sharding.Broker.Transfer.{fate, does_stay, leaving_to, transfer_to_shards}
use blockchain_sharding.Broker.Parts.{All-imp}

abbrev pub HasDistinctKeys : Dict Bytes ℕ → Type 0
HasDistinctKeys [] = Unit {0}
HasDistinctKeys ((k, v) ∷ m) = (lookup k m ≡ none) × HasDistinctKeys m

All-keep_also :
    {A : Type 0} (P : A → Type 0) (p : A → Bool) (xs : List A)
    → All P xs
    → All (λ x. P x × (p x ≡ true)) (keep p xs)
All-keep_also P p [] h = tt
All-keep_also P p (x ∷ xs) (h, hs) = elim (Bool-cases (p x)) [
  | inl e ↦ rw e ((h, e), All-keep_also P p xs hs)
  | inr e ↦ rw e (All-keep_also P p xs hs)
]

-- What stays in the queue stays for every shard.
pub transfer_to_shards-stays :
    (P : Transaction → Type 0) (p : PbftState) (m : Dict Bytes ℕ)
    (accounts : List (Bytes × AccountState)) (sids : List ℕ) (queue : List Transaction)
    → All P queue
    → All
        (λ tx. P tx × All (λ sid. does_stay (fate (leaving_to m accounts sid) tx) ≡ true) sids)
        (transfer_to_shards p m accounts sids queue).0
unfolding transfer_to_shards
transfer_to_shards-stays P p m accounts [] queue h =
    All-imp P (λ tx. P tx × Unit {0}) queue (λ tx h. (h, tt)) h
transfer_to_shards-stays P p m accounts (sid ∷ sids) queue h =
    let stay = λ (tx : Transaction). does_stay (fate (leaving_to m accounts sid) tx) in
    let left = keep stay queue in
    All-imp
      (λ tx.
        (P tx × (stay tx ≡ true))
        × All (λ sid. does_stay (fate (leaving_to m accounts sid) tx) ≡ true) sids)
      (λ tx.
        P tx × All (λ sid. does_stay (fate (leaving_to m accounts sid) tx) ≡ true) (sid ∷ sids))
      (transfer_to_shards p m accounts sids left).0 (λ tx h. (h.0.0, (h.0.1, h.1)))
      (transfer_to_shards-stays (λ tx. P tx × (stay tx ≡ true)) p m accounts sids left
        (All-keep_also P stay queue h))

pub other_shards-All :
    (be : Backend) (P : ℕ → Type 0) (me n start v : ℕ)
    → All P (other_shards be me n start)
    → start ≤ v
    → v < start + n
    → v ≢ me
    → P v
unfolding other_shards
other_shards-All be P me zero start v h low high other = absurd (ground (arith, low, high))
other_shards-All be P me (suc n) start v h low high other =
    let rest = other_shards be me n (start + 1) in
    skip (nat_beq start me) refl h
      (λ h later. other_shards-All be P me n (start + 1) v h later (ground (arith, high)) other)
  where
    skip :
        (b : Bool)
        → nat_beq start me ≡ b
        → All P (
            if b
            then other_shards be me n (start + 1)
            else start ∷ other_shards be me n (start + 1))
        → (All P (other_shards be me n (start + 1)) → start + 1 ≤ v → P v)
        → P v
    skip true e h k = k h (ground (arith, e, nat_beq_iff start me, other, low))
    skip false e h k = elim (ℕ_discrete start v) [
      | yes same ↦ subst P same h.0
      | no differs ↦ k h.1 (ground (arith, differs, low))
    ]

-- The accounts that a shard gets are those that the map puts there.
pub leaving-contains :
    (be : Backend) (st : be.tries.Trie) (m : Dict Bytes ℕ) (v : ℕ) (a : Bytes) (addrs : List Bytes)
    → is_among addrs a ≡ true
    → lookup_or a 0 m ≡ v
    → contains a (leaving_to m (side_by_side addrs (fetch_from be st addrs)) v) ≡ true
unfolding fetch_from
leaving-contains be st m v a [] here at = absurd (ground (arith, here))
leaving-contains be st m v a (b ∷ bs) here at =
    let rest = side_by_side bs (fetch_from be st bs) in
    elim (Bool-cases (bytes_beq b a)) [
      | inl e ↦
          rw
            ((nat_beq_iff (lookup_or b 0 m) v).1
              (ap (λ k. lookup_or k 0 m) ((bytes_beq_iff b a).0 e) ∙ at))
            (ground (arith, e, lookup-insert b a true (addr_set (accounts_for m v rest))))
      | inr e ↦
          let later = leaving-contains be st m v a bs (ground (arith, here, e)) at in
          elim (Bool-cases (nat_beq (lookup_or b 0 m) v)) [
            | inl e' ↦
                rw e'
                  (ground (arith, later, lookup-insert b a true (addr_set (accounts_for m v rest))))
            | inr e' ↦ rw e' later
          ]
    ]

module _ (be : Backend) where
  pub accounts_to_fetch-among :
      (bc : BlockChain be) (shard_id : ℕ) (m : Dict Bytes ℕ) (addrs : List Bytes) (a : Bytes)
      (v : ℕ)
      → accounts_to_fetch be bc shard_id m ≡ some addrs
      → get_partition_map be bc a ≡ some shard_id
      → lookup a m ≡ some v
      → v ≢ shard_id
      → is_among addrs a ≡ true
  unfolding accounts_to_fetch leaves
  accounts_to_fetch-among bc shard_id [] addrs a v run now to other = absurd (ground (arith, to))
  accounts_to_fetch-among bc shard_id ((k, w) ∷ m) addrs a v run now to other =
      fetched (accounts_to_fetch be bc shard_id m) refl
        (λ rest run new. accounts_to_fetch-among bc shard_id m rest a v run now new other)
    where
      fetched :
          (r : Option (List Bytes))
          → accounts_to_fetch be bc shard_id m ≡ r
          → ((rest : List Bytes)
              → accounts_to_fetch be bc shard_id m ≡ some rest
              → lookup a m ≡ some v
              → is_among rest a ≡ true)
          → is_among addrs a ≡ true
      fetched none e k = absurd (ground (arith, run, e))
      fetched (some rest) e next = elim (Bool-cases (bytes_beq k a)) [
        | inl same ↦ ground (
          arith,
          run,
          e,
          same,
          to,
          ap (get_partition_map be bc) ((bytes_beq_iff k a).0 same),
          now,
          other,
          nat_beq_iff w shard_id,
          nat_beq_iff shard_id shard_id,
        )
        | inr differs ↦ ground (arith, run, e, differs, next rest e (ground (arith, to, differs)))
      ]

  pub get_partition_map-update :
      (m : Dict Bytes ℕ) (bc : BlockChain be) (a : Bytes)
      → HasDistinctKeys m
      → get_partition_map be (update_partition_maps be m bc) a
        ≡ (elim (lookup a m) [ none ↦ get_partition_map be bc a | some v ↦ some v ])
  unfolding get_partition_map update_partition_map update_partition_maps
  get_partition_map-update [] bc a h = refl
  get_partition_map-update ((k, v) ∷ m) bc a (fresh, h) =
      get_partition_map-update m (update_partition_map be bc k v) a h
      ∙ (elim (Bool-cases (bytes_beq k a)) [
        | inl e ↦ ground (
          arith,
          e,
          ap (λ k. lookup k m) ((bytes_beq_iff k a).0 e),
          fresh,
          lookup-insert k a v bc.partition_map,
        )
        | inr e ↦ ground (arith, e, lookup-insert k a v bc.partition_map)
      ])
