-- ===== src/Clpa/Missing.antt =====
-- A re-partitioning that is proposed before the accounts of the other shards have come
-- (pbftInside_moduleCLPA.go, HandleinPropose).
use blockchain_sharding.Base.{
  ℕ, ◌≡◌, refl, sym, ap, ◌∙◌, true, Option, none, some, List, [], Bytes, Dict, arith, All,
  get_elem?, bytes_eq,
}
use blockchain_sharding.Core.Account.{AccountState}
use blockchain_sharding.Chain.Backend.{Backend}
use blockchain_sharding.Chain.State.{fetch_accounts}
use blockchain_sharding.Chain.Ledger.{balance_in}
use blockchain_sharding.Chain.Execution.{HasState}
use blockchain_sharding.Chain.Proof.{Prover}
use blockchain_sharding.Pbft.Messages.{Request, Out}
use blockchain_sharding.Pbft.Node.{PbftState}
use blockchain_sharding.Clpa.State.{DataSupport, ClpaChain, TransferCodec}
use blockchain_sharding.Clpa.Send.{last_map, accounts_to_fetch, send_accounts_and_txs}
use blockchain_sharding.Clpa.Transfer.{collect, propose_partition, account_transfer_do}
use blockchain_sharding.Clpa.Inside.{clpa_in_propose}
use blockchain_sharding.Clpa.Queue.{HasShard, send_accounts_and_txs-count}
use blockchain_sharding.Clpa.Accounts.{Accounts}
use blockchain_sharding.Clpa.Install.{account_transfer_do-installs}

module _ (be : Backend) where
  open be use {tries}
  open tries use {Trie}

  cdm_of : DataSupport → Option (ClpaChain be × List Out) → DataSupport
  cdm_of d none = d
  cdm_of d (some (c, outs)) = c.cdm

  -- Sending the accounts away leaves the shared data as they are.
  sent-cdm :
      (p : PbftState) (c : ClpaChain be) → cdm_of c.cdm (send_accounts_and_txs be p c) ≡ c.cdm
  unfolding send_accounts_and_txs cdm_of
  sent-cdm p c = go (last_map c.cdm.modified_map) refl
    where
      go :
          (x : Option (Dict Bytes ℕ))
          → last_map c.cdm.modified_map ≡ x
          → cdm_of c.cdm (send_accounts_and_txs be p c) ≡ c.cdm
      go none e = rw (e, send_accounts_and_txs) refl
      go (some m) e = inner (accounts_to_fetch be c.chain.bc p.shard_id m) refl
        where
          inner :
              (y : Option (List Bytes))
              → accounts_to_fetch be c.chain.bc p.shard_id m ≡ y
              → cdm_of c.cdm (send_accounts_and_txs be p c) ≡ c.cdm
          inner none e' = ground (arith, e, e')
          inner (some addrs) e' = last (fetch_accounts be c.chain.bc addrs) refl
            where
              last :
                  (z : Option (List AccountState))
                  → fetch_accounts be c.chain.bc addrs ≡ z
                  → cdm_of c.cdm (send_accounts_and_txs be p c) ≡ c.cdm
              last none e'' = ground (arith, e, e', e'')
              last (some states) e'' = ground (arith, e, e', e'')

  module _ (prover : Prover be) (tc : TransferCodec) where
    received_of : Option (ClpaChain be × Request) → Accounts
    received_of none = []
    received_of (some (c, r)) = c.cdm.received_new_account_state

    -- Without a message of another leader, no account is received.
    propose_partition-nothing :
        (p : PbftState) (c c' : ClpaChain be) (r : Request)
        → propose_partition be prover tc p c ≡ some (c', r)
        → c.cdm.account_state_tx ≡ []
        → c.cdm.received_new_account_state ≡ []
        → c'.cdm.received_new_account_state ≡ []
    unfolding propose_partition collect received_of
    propose_partition-nothing p c c' r e no_messages no_accounts =
        go (get_elem? c.cdm.modified_map c.cdm.account_transfer_round) refl
      where
        collected :
            collect c.cdm.account_state_tx (c.cdm.received_new_account_state, c.cdm.received_new_tx)
            ≡ some ([], c.cdm.received_new_tx)
        collected = ground (arith, no_messages, no_accounts)

        go :
            (y : Option (Dict Bytes ℕ))
            → get_elem? c.cdm.modified_map c.cdm.account_transfer_round ≡ y
            → c'.cdm.received_new_account_state ≡ []
        go none ey = absurd (ground (arith, e, collected, ey))
        go (some m) ey = sym (ap received_of (rw ey at (rw (collected, propose_partition) at e)))

    -- Committing the request of a re-partitioning changes no balance at a node.
    abbrev pub ChangesNothing : ClpaChain be → Trie → Request → Type 0
    ChangesNothing n st r =
        (n' : ClpaChain be) × (st' : Trie) × (account_transfer_do be (tc.decode_atm r.content) n
          ≡ some n')
        × HasState be n'.chain.bc n'.chain.bc.current_block.header.state_root st'
        × ((x : Bytes) → balance_in be st' x ≡ balance_in be st x)

    proposal-ChangesNothing :
        (p : PbftState) (c c' : ClpaChain be) (r : Request) (n : ClpaChain be) (st : Trie)
        → propose_partition be prover tc p c ≡ some (c', r)
        → c.cdm.account_state_tx ≡ []
        → c.cdm.received_new_account_state ≡ []
        → HasState be n.chain.bc n.chain.bc.current_block.header.state_root st
        → ChangesNothing n st r
    proposal-ChangesNothing p c c' r n st e no_messages no_accounts found =
        let nothing = propose_partition-nothing p c c' r e no_messages no_accounts in
        let (n', st', run, found', number, over, round, ledger) =
          account_transfer_do-installs be prover tc p c c' r n st e no_accounts found
            (rw nothing tt) in
        (n', st', run, found', λ x. ground (arith, ledger x, nothing))

    -- A proposal needs no more than a map for the round.
    propose_partition-runs :
        (p : PbftState) (c : ClpaChain be) (m : Dict Bytes ℕ)
        → c.cdm.account_state_tx ≡ []
        → get_elem? c.cdm.modified_map c.cdm.account_transfer_round ≡ some m
        → (c' : ClpaChain be) × (r : Request) × (propose_partition be prover tc p c ≡ some (c', r))
    unfolding propose_partition collect
    propose_partition-runs p c m no_messages e = go (propose_partition be prover tc p c) refl
      where
        go :
            (y : Option (ClpaChain be × Request))
            → propose_partition be prover tc p c ≡ y
            → (c' : ClpaChain be) × (r : Request) × (propose_partition be prover tc p c
                ≡ some (c', r))
        go none ey = absurd (ground (arith, ey, e, no_messages))
        go (some (c', r)) ey = (c', r, ey)

    module _ (size_of : ℕ) where
      -- A leader whose turn it is to re-partition, and to whom no other leader has sent accounts
      -- yet, does not wait: if its newest map is that of the round and names only addresses that
      -- have a shard, and its current trie can be opened, it proposes the re-partitioning without a
      -- panic. Any node of the shard that commits the request, and whose current trie can be opened,
      -- does so without a panic, and no balance in its trie changes: the accounts that the map moves
      -- into the shard do not come with it.
      pub partition_without_accounts :
          (p : PbftState) (c : ClpaChain be) (m : Dict Bytes ℕ) (own : Trie) (n : ClpaChain be)
          (st : Trie)
          → c.cdm.partition_on ≡ true
          → c.cdm.account_state_tx ≡ []
          → c.cdm.received_new_account_state ≡ []
          → last_map c.cdm.modified_map ≡ some m
          → get_elem? c.cdm.modified_map c.cdm.account_transfer_round ≡ some m
          → All (λ e. HasShard be c.chain.bc e.0) m
          → HasState be c.chain.bc c.chain.bc.current_block.header.state_root own
          → HasState be n.chain.bc n.chain.bc.current_block.header.state_root st
          → (c' : ClpaChain be) × (outs : List Out) × (r : Request) × (clpa_in_propose be prover
                size_of tc p c
              ≡ some (c', outs, r))
            × ChangesNothing n st r
      unfolding clpa_in_propose cdm_of
      partition_without_accounts p c m own n st on no_messages no_accounts newest round shards
            opened found =
          let (c1, sent, es, _) =
            send_accounts_and_txs-count be (λ tx. true) p c m own newest shards opened in
          let same : c1.cdm ≡ c.cdm = rw es at (sent-cdm p c) in
          let (c2, r, ep) =
            propose_partition-runs p c1 m (ap (λ d. d.account_state_tx) same ∙ no_messages)
              (ap (λ d. get_elem? d.modified_map d.account_transfer_round) same ∙ round) in
          (
            c2,
            sent,
            r,
            ground (arith, on, es, ep),
            proposal-ChangesNothing p c1 c2 r n st ep
                (ap (λ d. d.account_state_tx) same ∙ no_messages)
                (ap (λ d. d.received_new_account_state) same ∙ no_accounts) found,
          )
