-- ===== src/Tests/Clpas.antt =====
-- Shard 0 sends an account to shard 1, and commits the transfer of one that comes.
use blockchain_sharding.Base.{
  ℕ, ◌+◌, ◌≡◌, refl, ap, Bool, true, some, List, [], ◌∷◌, Bytes, Dict, pos, count, bytes_eq,
  bytes_beq,
}
use blockchain_sharding.Core.Account.{AccountState}
use blockchain_sharding.Core.Transaction.{Transaction}
use blockchain_sharding.Chain.State.{get_partition_map}
use blockchain_sharding.Pbft.Messages.{AccountTransferMsg, Out, Request}
use blockchain_sharding.Pbft.Node.{PbftState, new_pbft_state}
use blockchain_sharding.Clpa.State.{
  DataSupport, new_clpa_data_support, partition_req, TransferCodec, ClpaChain,
}
use blockchain_sharding.Clpa.Send.{send_accounts_and_txs}
use blockchain_sharding.Clpa.Queue.{sent_txs, send_accounts_and_txs-count}
use blockchain_sharding.Clpa.Inside.{clpa_in_propose}
use blockchain_sharding.Clpa.Missing.{ChangesNothing, partition_without_accounts}
use blockchain_sharding.Tests.Codec.{
  Ser, list_ser, pair_ser, bytes_ser, nat_ser, account_ser, iso_ser,
}
use blockchain_sharding.Tests.World.{world, key_prover, shard, config, alice, bob, carol, pay}

abbrev TransferFields : Type 0
TransferFields = List (Bytes × ℕ) × (List Bytes × (List AccountState × ℕ))

abbrev transfer_ser : Ser AccountTransferMsg
transfer_ser =
    iso_ser {A = TransferFields} (λ m. (m.modified_map, (m.addrs, (m.account_state, m.at_id))))
      (λ (m, (a, (s, n))). record { modified_map = m; addrs = a; account_state = s; at_id = n })
      (λ m. refl)
      (pair_ser (list_ser (pair_ser bytes_ser nat_ser))
        (pair_ser (list_ser bytes_ser) (pair_ser (list_ser account_ser) nat_ser)))

abbrev number_codec : TransferCodec
number_codec = record {
  encode_atm = λ m. transfer_ser.put m [];
  decode_atm = λ bs. (transfer_ser.read bs).0;
  decode_atm-encode_atm = λ m. ap (λ r. r.0) (transfer_ser.read-put m []);
}

abbrev leader : PbftState
leader =
    new_pbft_state (record { node_id = 0; shard_id = 0; ip_addr = 9 ∷ [] }) (λ v. v ∷ []) (config 0)
      0 0

-- Alice moves to shard 1, and carol stays.
abbrev moves : Dict Bytes ℕ
moves = (alice, 1) ∷ (carol, 0) ∷ []

abbrev queue : List Transaction
queue = pay alice bob (pos 3) ∷ pay carol alice (pos 4) ∷ []

abbrev sender : ClpaChain world
sender = record {
  chain = record {
    bc = record (shard 0) { txpool = record ((shard 0).txpool) { tx_queue = queue } };
    clock = record { at = λ n. n; reads = 0 };
  };
  cdm = record new_clpa_data_support { modified_map = moves ∷ []; partition_on = true };
}

abbrev by_alice : Transaction → Bool
by_alice tx = bytes_beq tx.sender alice

send_accounts_and_txs-count_example :
    (c' : ClpaChain world) × (outs : List Out) × (send_accounts_and_txs world leader sender
      ≡ some (c', outs))
    × (count by_alice (sent_txs outs) + count by_alice c'.chain.bc.txpool.tx_queue
        ≡ count by_alice queue)
unfolding new_clpa_data_support get_partition_map
send_accounts_and_txs-count_example =
    send_accounts_and_txs-count world by_alice leader sender moves [] refl
      ((0, refl), ((0, refl), tt)) refl

abbrev nine : AccountState
nine = record { ac_address = []; nonce = 2; balance = pos 9; storage_root = []; code_hash = [] }

abbrev coming : Dict Bytes ℕ
coming = (bob, 0) ∷ []

-- What the leader of shard 1 has sent: bob comes with nine.
abbrev with_bob : DataSupport
with_bob = record new_clpa_data_support {
  modified_map = coming ∷ [];
  account_state_tx =
      (1, record { addrs = bob ∷ []; account_state = nine ∷ []; txs = []; from_shard = 1 }) ∷ [];
}

abbrev receiver : ClpaChain world
receiver = record {
  chain = record { bc = shard 0; clock = record { at = λ n. n; reads = 0 } };
  cdm = with_bob;
}

abbrev after : ClpaChain world
after = record receiver {
  chain = record (receiver.chain) { clock = record { at = λ n. n; reads = 1 } };
  cdm = record with_bob { received_new_account_state = (bob, nine) ∷ [] };
}

abbrev transfer : Request
transfer = record {
  request_type = partition_req;
  content =
      number_codec.encode_atm
        (record { modified_map = coming; addrs = bob ∷ []; account_state = nine ∷ []; at_id = 1 });
  req_time = 0;
}

-- The leader of shard 0, who is to send alice away, and gets nothing.
abbrev alone : ClpaChain world
alone = record sender { chain = record (sender.chain) { bc = shard 0 } }

partition_without_accounts_example :
    (c' : ClpaChain world) × (outs : List Out) × (r : Request) × (clpa_in_propose world key_prover
        100 number_codec leader alone
      ≡ some (c', outs, r))
    × ChangesNothing world key_prover number_codec alone [] r
unfolding new_clpa_data_support get_partition_map
partition_without_accounts_example =
    partition_without_accounts world key_prover number_codec 100 leader alone moves [] alone [] refl
      refl refl refl refl ((0, refl), ((0, refl), tt)) refl refl
