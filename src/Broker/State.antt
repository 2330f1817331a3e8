-- ===== src/Broker/State.antt =====
-- broker/broker.go and message/message_broker.go, and what both Broker committees keep about the
-- transactions across shards (committee_broker.go, committee_clpa_broker.go).
use blockchain_sharding.Base.{
  ℕ, zero, suc, Bool, false, true, List, [], ◌∷◌, Bytes, Dict, bytes_beq, if◌then◌else◌, nat_beq,
}
use blockchain_sharding.Core.Transaction.{Transaction}
use blockchain_sharding.Relay.Inside.{Clock}

-- The fields that the source ignores are left out.
pub record BrokerRawMeg : Type 0 where
  pub tx : Transaction
  pub broker : Bytes

pub record BrokerType1Meg : Type 0 where
  pub raw_meg : BrokerRawMeg
  pub broker : Bytes

pub record BrokerType2Meg : Type 0 where
  pub raw_meg : BrokerRawMeg
  pub broker : Bytes

pub record Mag1Confirm : Type 0 where
  pub tx1_hash : Bytes
  pub raw_meg : BrokerRawMeg

pub record Mag2Confirm : Type 0 where
  pub tx2_hash : Bytes
  pub raw_meg : BrokerRawMeg

pub record Broker : Type 0 where
  pub broker_raw_megs : Dict Bytes BrokerRawMeg
  pub broker_address : List Bytes
  pub raw_tx2broker_tx : Dict Bytes (List Bytes)

-- The lines of the file of addresses, up to `num`; a `num` of zero takes them all.
unfoldable pub init_broker_addr : ℕ → List Bytes → List Bytes
init_broker_addr num [] = []
init_broker_addr zero (line ∷ lines) = line ∷ init_broker_addr zero lines
init_broker_addr (suc num) (line ∷ lines) =
    let rest = init_broker_addr num lines in if nat_beq num 0 then line ∷ [] else line ∷ rest

unfoldable pub new_broker : ℕ → List Bytes → Broker
unfolding init_broker_addr
new_broker num lines = record {
  broker_raw_megs = [];
  broker_address = init_broker_addr num lines;
  raw_tx2broker_tx = [];
}

abbrev pub is_among : List Bytes → Bytes → Bool
is_among [] address = false
is_among (b ∷ bs) address = if bytes_beq b address then true else is_among bs address

unfoldable pub is_broker : Broker → Bytes → Bool
is_broker b address = is_among b.broker_address address

-- The broker of a committee, the transactions that it waits for, and the time.
pub record Desk : Type 0 where
  pub broker : Broker
  pub broker_confirm1_pool : Dict Bytes Mag1Confirm
  pub broker_confirm2_pool : Dict Bytes Mag2Confirm
  pub clock : Clock

unfoldable pub new_desk : ℕ → List Bytes → Clock → Desk
unfolding new_broker
new_desk num lines clock = record {
  broker = new_broker num lines;
  broker_confirm1_pool = [];
  broker_confirm2_pool = [];
  clock = clock;
}
