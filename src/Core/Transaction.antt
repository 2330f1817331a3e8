-- ===== src/Core/Transaction.antt =====
-- core/transaction.go. Addresses and hashes are byte strings; `Value` is an unbounded integer;
-- a time is a number, and 0 is Go's zero time.
use blockchain_sharding.Base.{ℕ, Bool, false, Bytes, ℤ, []}

pub record Transaction : Type 0 where
  pub sender : Bytes
  pub recipient : Bytes
  pub nonce : ℕ
  pub signature : Bytes
  pub value : ℤ
  pub tx_hash : Bytes
  pub time : ℕ
  pub relayed : Bool
  pub has_broker : Bool
  pub sender_is_broker : Bool
  pub original_sender : Bytes
  pub final_recipient : Bytes
  pub raw_tx_hash : Bytes

-- `tx_digest` is SHA-256 of the gob encoding of the transaction as it stands.
unfoldable pub new_transaction : (Transaction → Bytes) → Bytes → Bytes → ℤ → ℕ → ℕ → Transaction
new_transaction tx_digest sender recipient value nonce propose_time =
    let tx : Transaction = record {
      sender = sender;
      recipient = recipient;
      nonce = nonce;
      signature = [];
      value = value;
      tx_hash = [];
      time = propose_time;
      relayed = false;
      has_broker = false;
      sender_is_broker = false;
      original_sender = [];
      final_recipient = [];
      raw_tx_hash = [];
    } in
    record tx {
      tx_hash = tx_digest tx;
      relayed = false;
      final_recipient = [];
      original_sender = [];
      raw_tx_hash = [];
      has_broker = false;
      sender_is_broker = false;
    }
