-- ===== src/Broker/Protocol.antt =====
-- One transaction across shards from its arrival at the committee to its second part
-- (committee_broker.go and committee_clpa_broker.go).
use blockchain_sharding.Base.{
  ℕ, ◌<◌, true, false, Option, none, some, List, [], ◌∷◌, Bytes, lookup, contains, nat_beq,
  nat_beq_iff, keep, All, map, if◌then◌else◌, get_elem?, ◌≡◌, refl, sym, ap, ◌∙◌, arith, bytes_eq,
  lookup-insert_self, subst,
}
use blockchain_sharding.Core.Transaction.{Transaction, new_transaction}
use blockchain_sharding.Relay.Inside.{read_time}
use blockchain_sharding.Supervisor.Committee.Sending.{InjectTxs}
use blockchain_sharding.Supervisor.Committee.Delivered.{got, tx_sending-got}
use blockchain_sharding.Broker.State.{BrokerRawMeg, BrokerType1Meg, Desk, is_broker}
use blockchain_sharding.Broker.Desk.{
  split_txs, part_of, make_tx1s, register, route, handle_broker_type1_mes, handle_broker_raw_mag,
  handle_raws, deal_tx_by_broker, create_confirm,
}
use blockchain_sharding.Broker.Parts.{All-imp, terms, second_part, is_at, HasShard}
use blockchain_sharding.Broker.Settled.{IsSettled}
use blockchain_sharding.Broker.Confirmed.{create_confirm-terms}
use blockchain_sharding.Broker.Remembered.{make_tx1s-terms, register-kept, register-adds}
use blockchain_sharding.Broker.Dealt.{across, across-sender, split_txs-split}

-- A list of one element, seen through a function.
map-single :
    {A B : Type 0} (f : A → B) (xs : List A) (y : B)
    → map f xs ≡ y ∷ []
    → (x : A) × (xs ≡ x ∷ []) × (f x ≡ y)
map-single f [] y h = absurd (ground (arith, h))
map-single f (x ∷ []) y h = (x, refl, ap (λ l. elim l [ [] ↦ f x | z ∷ zs ↦ z ]) h)
map-single f (x ∷ z ∷ zs) y h = absurd (ground (arith, h))

module _ (tx_digest : Transaction → Bytes) (raw_digest : BrokerRawMeg → Bytes) (shard_num : ℕ)
    (speed : ℕ) (shard_of : Bytes → Option ℕ) where
  -- The desk that knows of `tx`, and what it makes of it.
  abbrev known_desk : Desk → Bytes → Transaction → Desk
  known_desk d addr tx = record d {
    broker = register tx_digest raw_digest (record { tx = tx; broker = addr } ∷ []) d.broker;
  }

  abbrev asked : Bytes → Transaction → BrokerType1Meg
  asked addr tx = record { raw_meg = record { tx = tx; broker = addr }; broker = addr }

  abbrev dealt_desk : Desk → Bytes → Transaction → Desk
  dealt_desk d addr tx =
      (make_tx1s tx_digest raw_digest (asked addr tx ∷ []) (known_desk d addr tx)).0

  abbrev first_tx : Desk → Bytes → Transaction → Transaction
  first_tx d addr tx = part_of tx_digest raw_digest tx tx.sender addr (read_time d.clock).0

  dealt_desk-IsSettled :
      (tx : Transaction) (d : Desk) (addr : Bytes)
      → IsSettled raw_digest d
      → IsSettled raw_digest (dealt_desk d addr tx)
  dealt_desk-IsSettled tx d addr settled =
      let raws : List BrokerRawMeg = record { tx = tx; broker = addr } ∷ [] in
      let b1 = (known_desk d addr tx).broker in
      (make_tx1s-terms tx_digest raw_digest (asked addr tx ∷ []) (known_desk d addr tx)
        (register-adds tx_digest raw_digest raws d.broker)
        (All-imp (λ e. contains (raw_digest e.1.raw_meg) d.broker.broker_raw_megs ≡ true)
          (λ e. contains (raw_digest e.1.raw_meg) b1.broker_raw_megs ≡ true) d.broker_confirm1_pool
          (λ e h. register-kept tx_digest raw_digest raws d.broker (raw_digest e.1.raw_meg) h)
          settled)).2

  deal_one :
      (tx : Transaction) (d : Desk) (addr : Bytes) (s : ℕ)
      → s < shard_num
      → 0 < speed
      → get_elem? d.broker.broker_address 0 ≡ some addr
      → shard_of tx.sender ≡ some s
      → HasShard shard_of tx.recipient
      → across shard_of d.broker tx ≡ true
      → (sent : List InjectTxs) × (deal_tx_by_broker tx_digest raw_digest shard_num speed shard_of
            (tx ∷ [])
            d
          ≡ some (dealt_desk d addr tx, [], sent))
        × (got s sent ≡ first_tx d addr tx ∷ [])
  unfolding deal_tx_by_broker handle_raws handle_broker_raw_mag handle_broker_type1_mes make_tx1s
      register is_broker new_transaction
  deal_one tx d addr s small positive first at to needed =
      let b1 = (known_desk d addr tx).broker in
      let t1 = first_tx d addr tx in
      let raw : BrokerRawMeg = record { tx = tx; broker = addr } in
      let plain = (across-sender shard_of d.broker tx needed).1 in
      let goes : route tx_digest raw_digest shard_num speed shard_of b1 t1 ≡ some s =
        rw at (rw plain refl) in
      let (sent, run, gets) =
        tx_sending-got shard_num speed (route tx_digest raw_digest shard_num speed shard_of b1) s
          (t1 ∷ []) small positive ((s, goes), tt) in
      let split : split_txs tx_digest raw_digest shard_num speed shard_of d.broker (tx ∷ [])
          ≡ some ([], raw ∷ []) =
        split_txs-split tx_digest raw_digest shard_num speed shard_of d.broker addr (tx ∷ []) first
          ((to, (s, at)), tt)
        ∙ rw needed refl in
      (
        sent,
        rw split (rw run refl),
        gets
            ∙ ap (λ o. if elim o [ none ↦ false | some k ↦ nat_beq k s ] then t1 ∷ [] else []) goes
            ∙ rw ((nat_beq_iff s s).1 refl) refl,
      )

  -- At a desk of which every confirmation that is waited for is about a known message, with a first
  -- broker whose account has a shard, and a speed that is not zero: a transaction for which a broker
  -- has to stand in, from a shard that exists to another one, is not sent itself; the sender's shard
  -- gets one transaction, from the sender to the broker. Once that one is confirmed, the recipient's
  -- shard gets one, from the broker to the recipient. Both have the value of the transaction and
  -- name its hash, nothing panics, and the desk stays such a desk.
  pub deal-create_confirm :
      (tx : Transaction) (d : Desk) (addr : Bytes) (s r : ℕ)
      → s < shard_num
      → r < shard_num
      → 0 < speed
      → IsSettled raw_digest d
      → get_elem? d.broker.broker_address 0 ≡ some addr
      → HasShard shard_of addr
      → shard_of tx.sender ≡ some s
      → shard_of tx.recipient ≡ some r
      → across shard_of d.broker tx ≡ true
      → (d1 d2 : Desk) × (t1 t2 : Transaction) × (sent1 sent2 : List InjectTxs) × (deal_tx_by_broker
            tx_digest raw_digest shard_num speed shard_of
            (tx ∷ [])
            d
          ≡ some (d1, [], sent1))
        × (got s sent1 ≡ t1 ∷ [])
        × (terms t1 ≡ (tx.sender, addr, tx.value, tx.tx_hash))
        × (create_confirm tx_digest raw_digest shard_num speed shard_of (t1 ∷ []) d1
            ≡ some (d2, sent2))
        × (got r sent2 ≡ t2 ∷ [])
        × (terms t2 ≡ (addr, tx.recipient, tx.value, tx.tx_hash))
        × IsSettled raw_digest d2
  unfolding make_tx1s register new_transaction
  deal-create_confirm tx d addr s r s_small r_small positive settled first home at to needed =
      let (sent1, dealt, gets1) = deal_one tx d addr s s_small positive first at (r, to) needed in
      let t1 = first_tx d addr tx in
      let raw : BrokerRawMeg = record { tx = tx; broker = addr } in
      let d1 = dealt_desk d addr tx in
      let pool : lookup t1.tx_hash d1.broker_confirm1_pool
          ≡ some (record { tx1_hash = t1.tx_hash; raw_meg = raw }) =
        lookup-insert_self t1.tx_hash (record { tx1_hash = t1.tx_hash; raw_meg = raw })
          d.broker_confirm1_pool in
      let found1 = ap (λ o. elim o [ none ↦ [] | some c ↦ c ∷ [] ]) pool in
      let (d2, sent2, confirmed, settled2, gets2) =
        create_confirm-terms tx_digest raw_digest shard_num speed shard_of r (t1 ∷ []) d1 addr
          r_small positive (dealt_desk-IsSettled tx d addr settled) first home
          (subst (λ l. All (λ c. HasShard shard_of c.raw_meg.tx.recipient) l) (sym found1)
            ((r, to), tt)) in
      let (t2, got2, terms2) = map-single terms (got r sent2) (second_part addr raw) (
        gets2
        ∙ ap (λ l. keep (λ t. is_at shard_of r t.1) (map (λ c. second_part addr c.raw_meg) l))
            found1
        ∙ ap
            (λ o.
              if elim o [ none ↦ false | some k ↦ nat_beq k r ]
              then second_part addr raw ∷ []
              else [])
            to
        ∙ rw ((nat_beq_iff r r).1 refl) refl) in
      (d1, d2, t1, t2, sent1, sent2, dealt, gets1, refl, confirmed, got2, terms2, settled2)
