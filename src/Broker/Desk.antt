-- ===== src/Broker/Desk.antt =====
-- committee_broker.go and committee_clpa_broker.go: transactions across shards, cut in two by a
-- broker. `shard_of` is fetchModifiedMap, in which the two committees differ; `raw_digest` is
-- getBrokerRawMagDigest (JSON and SHA-256), and `tx_digest` the hash of a transaction.
use blockchain_sharding.Base.{
  ℕ, Bool, true, not, ◌&&◌, ◌||◌, Option, none, some, List, [], ◌∷◌, ◌++◌, Bytes, Dict, lookup,
  lookup_or, insert, contains, nat_beq, if◌then◌else◌, get_elem?, ◌>>=◌, bytes_eq, map,
}
use blockchain_sharding.Core.Transaction.{Transaction, new_transaction}
use blockchain_sharding.Pbft.Messages.{BlockInfoMsg}
use blockchain_sharding.Relay.Inside.{read_time}
use blockchain_sharding.Supervisor.Committee.Sending.{InjectTxs, tx_sending}
use blockchain_sharding.Broker.State.{
  BrokerRawMeg, BrokerType1Meg, BrokerType2Meg, Mag1Confirm, Mag2Confirm, Broker, is_broker, Desk,
}

-- `tx.HasBroker = true` and so on, for a transaction of a broker.
abbrev pub mark_broker : Broker → Transaction → Transaction
mark_broker b tx =
    if is_broker b tx.recipient || is_broker b tx.sender
    then record tx { has_broker = true; sender_is_broker = is_broker b tx.sender }
    else tx

-- The confirmations that wait for the transactions.
abbrev pub found : {C : Type 0} → Dict Bytes C → List Transaction → List C
found pool [] = []
found pool (tx ∷ txs) = elim (lookup tx.tx_hash pool) [
  | none ↦ found pool txs
  | some c ↦ c ∷ found pool txs
]

module _ (tx_digest : Transaction → Bytes) (raw_digest : BrokerRawMeg → Bytes) where
  -- A transaction that a broker is a party of, about the one across shards.
  abbrev pub part_of : Transaction → Bytes → Bytes → ℕ → Transaction
  part_of ctx sender recipient now =
      record (new_transaction tx_digest sender recipient ctx.value ctx.nonce now) {
        original_sender = ctx.sender;
        final_recipient = ctx.recipient;
        raw_tx_hash = ctx.tx_hash;
      }

  -- The loop of handleBrokerType1Mes, and that of handleBrokerType2Mes.
  unfoldable pub make_tx1s : List BrokerType1Meg → Desk → Desk × List Transaction
  make_tx1s [] d = (d, [])
  make_tx1s (m ∷ ms) d =
      let (now, clock) = read_time d.clock in
      let tx1 = part_of m.raw_meg.tx m.raw_meg.tx.sender m.broker now in
      let confirm1 : Mag1Confirm = record { tx1_hash = tx1.tx_hash; raw_meg = m.raw_meg } in
      let (d', txs) = make_tx1s ms (record d {
        clock = clock;
        broker_confirm1_pool = insert tx1.tx_hash confirm1 d.broker_confirm1_pool;
      }) in
      (d', tx1 ∷ txs)

  unfoldable pub make_tx2s : List BrokerType2Meg → Desk → Desk × List Transaction
  make_tx2s [] d = (d, [])
  make_tx2s (m ∷ ms) d =
      let (now, clock) = read_time d.clock in
      let tx2 = part_of m.raw_meg.tx m.broker m.raw_meg.tx.recipient now in
      let confirm2 : Mag2Confirm = record { tx2_hash = tx2.tx_hash; raw_meg = m.raw_meg } in
      let (d', txs) = make_tx2s ms (record d {
        clock = clock;
        broker_confirm2_pool = insert tx2.tx_hash confirm2 d.broker_confirm2_pool;
      }) in
      (d', tx2 ∷ txs)

  -- `handleTx2ConfirmMag`
  unfoldable pub handle_tx2_confirm_mag : List Mag2Confirm → Desk → Desk
  handle_tx2_confirm_mag [] d = d
  handle_tx2_confirm_mag (c ∷ cs) d =
      let raw = c.raw_meg.tx.tx_hash in
      let txs = lookup_or raw [] d.broker.raw_tx2broker_tx in
      handle_tx2_confirm_mag cs (record d {
        broker = record (d.broker) {
          raw_tx2broker_tx = insert raw (txs ++ c.tx2_hash ∷ []) d.broker.raw_tx2broker_tx;
        };
      })

  -- The loop of handleTx1ConfirmMag; a message that is not known is left out.
  unfoldable pub make_type2s : List Mag1Confirm → Broker → Option (Broker × List BrokerType2Meg)
  make_type2s [] b = some (b, [])
  make_type2s (c ∷ cs) b =
      if contains (raw_digest c.raw_meg) b.broker_raw_megs
      then (do
        let raw = c.raw_meg.tx.tx_hash
        let txs = lookup_or raw [] b.raw_tx2broker_tx
        addr ← get_elem? b.broker_address 0
        (b', megs) ←
            make_type2s cs (record b {
              raw_tx2broker_tx = insert raw (txs ++ c.tx1_hash ∷ []) b.raw_tx2broker_tx;
            })
        some (b', record { raw_meg = c.raw_meg; broker = addr } ∷ megs))
      else make_type2s cs b

  -- The loop of handleBrokerRawMag.
  unfoldable pub register : List BrokerRawMeg → Broker → Broker
  register [] b = b
  register (m ∷ ms) b =
      register ms (record b { broker_raw_megs = insert (raw_digest m) m b.broker_raw_megs })

  module _ (shard_num : ℕ) (speed : ℕ) (shard_of : Bytes → Option ℕ) where
    -- The shard that txSending sends a transaction to.
    abbrev pub route : Broker → Transaction → Option ℕ
    route b tx = do
      sid ← shard_of tx.sender
      if is_broker b tx.sender then shard_of tx.recipient else some sid

    unfoldable pub handle_broker_type1_mes :
        List BrokerType1Meg → Desk → Option (Desk × List InjectTxs)
    unfolding make_tx1s
    handle_broker_type1_mes ms d =
        let (d', tx1s) = make_tx1s ms d in
        (tx_sending shard_num speed (route d.broker) tx1s >>= λ sent. some (d', sent))

    unfoldable pub handle_broker_type2_mes :
        List BrokerType2Meg → Desk → Option (Desk × List InjectTxs)
    unfolding make_tx2s
    handle_broker_type2_mes ms d =
        let (d', tx2s) = make_tx2s ms d in
        (tx_sending shard_num speed (route d.broker) tx2s >>= λ sent. some (d', sent))

    unfoldable pub handle_broker_raw_mag : List BrokerRawMeg → Desk → Option (Desk × List InjectTxs)
    unfolding register handle_broker_type1_mes
    handle_broker_raw_mag ms d =
        handle_broker_type1_mes (map (λ m. record { raw_meg = m; broker = m.broker }) ms)
          (record d { broker = register ms d.broker })

    unfoldable pub handle_tx1_confirm_mag : List Mag1Confirm → Desk → Option (Desk × List InjectTxs)
    unfolding make_type2s handle_broker_type2_mes
    handle_tx1_confirm_mag cs d = do
      (broker, ms) ← make_type2s cs d.broker
      handle_broker_type2_mes ms (record d { broker = broker })

    -- Without a confirmation nothing is done.
    unfoldable pub handle_confirm1s : List Mag1Confirm → Desk → Option (Desk × List InjectTxs)
    unfolding handle_tx1_confirm_mag
    handle_confirm1s [] d = some (d, [])
    handle_confirm1s (c ∷ cs) d = handle_tx1_confirm_mag (c ∷ cs) d

    -- `createConfirm`
    unfoldable pub create_confirm : List Transaction → Desk → Option (Desk × List InjectTxs)
    unfolding handle_confirm1s handle_tx2_confirm_mag
    create_confirm txs d =
        let confirm2s = found d.broker_confirm2_pool txs in
        (handle_confirm1s (found d.broker_confirm1_pool txs) d >>= λ dealt.
        some (handle_tx2_confirm_mag confirm2s dealt.0, dealt.1))

    -- Whether a broker has to stand in for a transaction.
    unfoldable pub needs_broker : Broker → Transaction → Option Bool
    needs_broker b tx = do
      r_sid ← shard_of tx.recipient
      s_sid ← shard_of tx.sender
      some (
          not (nat_beq r_sid s_sid)
          && not (is_broker b tx.recipient)
          && not (is_broker b tx.sender))

    -- The loop of dealTxByBroker: those that are sent as they are, and the messages to the broker.
    unfoldable pub split_txs :
        Broker → List Transaction → Option (List Transaction × List BrokerRawMeg)
    unfolding needs_broker
    split_txs b [] = some ([], [])
    split_txs b (tx ∷ txs) =
        let rest = split_txs b txs in
        (needs_broker b tx >>= λ needs.
        if needs
        then (do
          addr ← get_elem? b.broker_address 0
          (itxs, megs) ← rest
          some (itxs, record { tx = tx; broker = addr } ∷ megs))
        else (do (itxs, megs) ← rest; some (mark_broker b tx ∷ itxs, megs)))

    unfoldable pub handle_raws : List BrokerRawMeg → Desk → Option (Desk × List InjectTxs)
    unfolding handle_broker_raw_mag
    handle_raws [] d = some (d, [])
    handle_raws (m ∷ ms) d = handle_broker_raw_mag (m ∷ ms) d

    unfoldable pub deal_tx_by_broker :
        List Transaction → Desk → Option (Desk × List Transaction × List InjectTxs)
    unfolding split_txs handle_raws
    deal_tx_by_broker txs d = do
      (itxs, megs) ← split_txs d.broker txs
      (d', sent) ← handle_raws megs d
      some (d', itxs, sent)

    -- The batch of MsgSendingControl: what the brokers stand in for goes first.
    unfoldable pub send_dealt : List Transaction → Desk → Option (Desk × List InjectTxs)
    unfolding deal_tx_by_broker
    send_dealt txs d = do
      (d', itxs, first) ← deal_tx_by_broker txs d
      second ← tx_sending shard_num speed (route d'.broker) itxs
      some (d', first ++ second)

    unfoldable pub handle_broker_block_info : BlockInfoMsg → Desk → Option (Desk × List InjectTxs)
    unfolding create_confirm
    handle_broker_block_info b d =
        if nat_beq b.block_body_length 0
        then some (d, [])
        else create_confirm (b.broker1_txs ++ b.broker2_txs) d
