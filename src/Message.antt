-- ===== src/Message.antt =====
-- Framing of the messages between nodes (message/message.go, and the message types of the other
-- files of message/). A message type is a Go string, here its bytes. JSON, which encodes the
-- contents, is not part of this repository: the handlers of the other modules take the decoded
-- message.
pub mod Roundtrip
use Prim.Native.Char.{code}
use Prim.Native.String.{String}
use blockchain_sharding.Base.{
  ℕ, zero, suc, ◌+◌, List, [], ◌∷◌, ◌++◌, Bool, true, false, not, Option, none, some, Bytes,
  nat_beq, ltb, leb, if◌then◌else◌, length, set, take, drop, replicate, keep, guard, ◌>>=◌, ◌>>◌,
}

abbrev pub codes : String → Bytes
codes String.[] = []
codes (String.◌∷◌ c s) = code c ∷ codes s

-- `prefixMSGtypeLen`
abbrev pub prefix_msg_type_len : ℕ
prefix_msg_type_len = 30

-- The types of messages that a consensus node dispatches on.
abbrev pub pbft_message_types : List Bytes
pbft_message_types =
    codes "preprepare"
    ∷ codes "prepare"
    ∷ codes "commit"
    ∷ codes "requestOldrequest"
    ∷ codes "sendOldrequest"
    ∷ codes "stop"
    ∷ codes "relay"
    ∷ codes "CRelay&Proof"
    ∷ codes "inject"
    ∷ codes "BlockInfo"
    ∷ codes "SequenceID"
    ∷ []

abbrev pub clpa_message_types : List Bytes
clpa_message_types =
    codes "AccountState&txs"
    ∷ codes "PartitionReq"
    ∷ codes "PartitionModifiedMap"
    ∷ codes "ready for partition"
    ∷ []

abbrev pub broker_message_types : List Bytes
broker_message_types =
    codes "brokerRawTx"
    ∷ codes "brokerConfirm1"
    ∷ codes "brokerConfirm2"
    ∷ codes "brokerType1"
    ∷ codes "brokerType2"
    ∷ codes "InjectTx_Broker"
    ∷ codes "BrokerTxMap"
    ∷ codes "BrokerAS_transfer"
    ∷ codes "innerShardTx_be_crossShard"
    ∷ []

abbrev pub view_change_message_types : List Bytes
view_change_message_types = codes "ViewChangePropose" ∷ codes "NewChange" ∷ []

-- `for i, v := range []byte(msgType) { b[i] = v }`, which panics out of range.
pub fill : Bytes → ℕ → Bytes → Option Bytes
fill b i [] = some b
fill b i (v ∷ vs) = if ltb i (length b) then fill (set b i v) (i + 1) vs else none

unfoldable pub merge_message : Bytes → Bytes → Option Bytes
unfolding fill
merge_message msg_type content = do
  b ← fill (replicate prefix_msg_type_len 0) 0 msg_type
  some (b ++ content)

-- A message shorter than the prefix is a slice out of range.
unfoldable pub split_message : Bytes → Option (Bytes × Bytes)
split_message message = do
  guard (leb prefix_msg_type_len (length message))
  some (
    keep (λ v. not (nat_beq v 0)) (take prefix_msg_type_len message),
    drop prefix_msg_type_len message,
  )
