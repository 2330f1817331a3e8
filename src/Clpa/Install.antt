-- ===== src/Clpa/Install.antt =====
-- The accounts that a committed re-partitioning puts into the status trie
-- (accountTransfer_module.go, proposePartition and accountTransfer_do).
use blockchain_sharding.Base.{
  ℕ, ◌+◌, ◌≡◌, refl, sym, ap, ◌∙◌, subst, Bool, false, Option, none, some, List, [], ◌∷◌, Bytes,
  Dict, map, All, arith, eq_of_parts, +ℤ_parts, if◌then◌else◌, length, get_elem?, pos, ◌+ℤ◌, lookup,
  nat_beq, bytes_eq, u64,
}
use blockchain_sharding.Core.Account.{AccountState}
use blockchain_sharding.Core.Transaction.{Transaction}
use blockchain_sharding.Core.Block.{new_block}
use blockchain_sharding.Chain.Backend.{Backend}
use blockchain_sharding.Chain.State.{
  BlockChain, get_partition_map, put_accounts, update_partition_map,
}
use blockchain_sharding.Chain.Blocks.{add_accounts, store_accounts, append_accounts}
use blockchain_sharding.Chain.Ledger.{balance_in, balance_in-update}
use blockchain_sharding.Chain.Execution.{HasState}
use blockchain_sharding.Chain.Proof.{Prover}
use blockchain_sharding.Pbft.Messages.{Request, AccountTransferMsg}
use blockchain_sharding.Pbft.Node.{PbftState}
use blockchain_sharding.Clpa.State.{DataSupport, ClpaChain, TransferCodec}
use blockchain_sharding.Clpa.Transfer.{
  pair_accounts, collect, propose_partition, update_partition_maps, after_transfer,
  account_transfer_do,
}
use blockchain_sharding.Clpa.Queue.{HasShard}
use blockchain_sharding.Clpa.Accounts.{
  Accounts, installed, HasDifferentKeys, installed-lookup, collect-HasDifferentKeys,
  pair_accounts-map,
}

-- The shared data of a node with no transfer under way.
abbrev pub IsOver : DataSupport → Type 0
IsOver cdm =
    (cdm.partition_on ≡ false)
    × (cdm.collect_over ≡ false)
    × (cdm.partition_ready ≡ [])
    × (cdm.account_state_tx ≡ [])
    × (cdm.received_new_account_state ≡ [])
    × (cdm.received_new_tx ≡ [])

module _ (be : Backend) where
  open be use {tries, codec}
  open tries use {Trie, update, commit, root, open_trie-commit}
  open codec use {encode_as}

  -- Whether an address belongs to the shard of the chain.
  abbrev pub is_here : BlockChain be → Bytes → Bool
  is_here bc addr = elim (get_partition_map be bc addr) [
    | none ↦ false
    | some sid ↦ nat_beq sid bc.chain_config.shard_id
  ]

  put_accounts-installs :
      (bc : BlockChain be) (accounts : Accounts) (st : Trie)
      → All (λ a. HasShard be bc a.0) accounts
      → (st' : Trie) × (put_accounts be bc accounts st ≡ some st')
        × ((x : Bytes)
            → balance_in be st' x ≡ installed (is_here bc) accounts x (balance_in be st x))
  unfolding put_accounts
  put_accounts-installs bc [] st h = (st, refl, λ x. refl)
  put_accounts-installs bc ((a, s) ∷ accounts) st ((sid, e), rest) =
      let kept : AccountState = record {
        ac_address = [];
        nonce = s.nonce;
        balance = pos 0 +ℤ s.balance;
        storage_root = [];
        code_hash = [];
      } in
      let next =
        if nat_beq sid bc.chain_config.shard_id then update st a (encode_as kept) else st in
      let (st', run, ledger) = put_accounts-installs bc accounts next rest in
      let same : pos 0 +ℤ s.balance ≡ s.balance =
        eq_of_parts (pos 0 +ℤ s.balance) s.balance (omega (arith, +ℤ_parts (pos 0) s.balance)) in
      (
        st',
        rw (e, put_accounts) run,
        λ x.
            ledger x
            ∙ ap (installed (is_here bc) accounts x)
                (ground (arith, e, same, balance_in-update be st a kept x)),
      )

  -- Adding accounts: the trie under the root of the new block.
  add_accounts-installs :
      (bc : BlockChain be) (accounts : Accounts) (st : Trie)
      → HasState be bc bc.current_block.header.state_root st
      → All (λ a. HasShard be bc a.0) accounts
      → (bc' : BlockChain be) × (st' : Trie) × (add_accounts be bc accounts ≡ some bc')
        × HasState be bc' bc'.current_block.header.state_root st'
        × (is_here bc' ≡ is_here bc)
        × (bc'.current_block.header.number ≡ u64 (bc.current_block.header.number + 1))
        × ((x : Bytes)
            → balance_in be st' x ≡ installed (is_here bc) accounts x (balance_in be st x))
  unfolding add_accounts store_accounts append_accounts new_block get_partition_map
  add_accounts-installs bc [] st found h = (
    append_accounts be bc bc.triedb bc.current_block.header.state_root,
    st,
    refl,
    found,
    refl,
    refl,
    λ x. refl,
  )
  add_accounts-installs bc (a ∷ accounts) st found h =
      let (st', run, ledger) = put_accounts-installs bc (a ∷ accounts) st h in
      (
        append_accounts be bc (commit bc.triedb st') (root st'),
        st',
        rw (found, add_accounts) (rw run refl),
        open_trie-commit bc.triedb st',
        refl,
        refl,
        ledger,
      )

  update_partition_maps-keeps :
      (m : Dict Bytes ℕ) (bc : BlockChain be)
      → let bc' = update_partition_maps be m bc in
        (bc'.triedb ≡ bc.triedb) × (bc'.current_block ≡ bc.current_block)
  unfolding update_partition_maps update_partition_map
  update_partition_maps-keeps [] bc = (refl, refl)
  update_partition_maps-keeps ((key, val) ∷ m) bc =
      update_partition_maps-keeps m (update_partition_map be bc key val)

  module _ (prover : Prover be) (tc : TransferCodec) where
    open tc use {decode_atm, encode_atm, decode_atm-encode_atm}

    abbrev pub MakesRequest : ClpaChain be → ClpaChain be → Request → Type 0
    MakesRequest c c' r =
        (m : Dict Bytes ℕ) × HasDifferentKeys c'.cdm.received_new_account_state
        × (decode_atm r.content ≡ record {
          modified_map = m;
          addrs = map (λ a. a.0) c'.cdm.received_new_account_state;
          account_state = map (λ a. a.1) c'.cdm.received_new_account_state;
          at_id = length c.cdm.modified_map;
        })

    accounts_of : Option (ClpaChain be × Request) → Accounts
    accounts_of none = []
    accounts_of (some (c, r)) = c.cdm.received_new_account_state

    content_of : Option (ClpaChain be × Request) → Bytes
    content_of none = []
    content_of (some (c, r)) = r.content

    -- What the leader puts into its request.
    propose_partition-request :
        (p : PbftState) (c c' : ClpaChain be) (r : Request)
        → propose_partition be prover tc p c ≡ some (c', r)
        → c.cdm.received_new_account_state ≡ []
        → MakesRequest c c' r
    unfolding propose_partition accounts_of content_of
    propose_partition-request p c c' r e none_before =
        go
          (collect c.cdm.account_state_tx (c.cdm.received_new_account_state, c.cdm.received_new_tx))
          refl (get_elem? c.cdm.modified_map c.cdm.account_transfer_round) refl
      where
        go :
            (x : Option (Accounts × List Transaction))
            → collect c.cdm.account_state_tx
                (c.cdm.received_new_account_state, c.cdm.received_new_tx)
              ≡ x
            → (y : Option (Dict Bytes ℕ))
            → get_elem? c.cdm.modified_map c.cdm.account_transfer_round ≡ y
            → MakesRequest c c' r
        go none ex y ey = absurd (ground (arith, e, ex))
        go (some (m', txs)) ex none ey = absurd (ground (arith, e, ex, ey))
        go (some (m', txs)) ex (some m) ey =
            let different : HasDifferentKeys m' =
              collect-HasDifferentKeys c.cdm.account_state_tx c.cdm.received_new_account_state
                c.cdm.received_new_tx m' txs (rw none_before tt) ex in
            let run = rw ey at (rw (ex, propose_partition) at e) in
            let same : m' ≡ c'.cdm.received_new_account_state = ap accounts_of run in
            let sent : AccountTransferMsg = record {
              modified_map = m;
              addrs = map (λ a. a.0) m';
              account_state = map (λ a. a.1) m';
              at_id = length c.cdm.modified_map;
            } in
            let content : encode_atm sent ≡ r.content = ap content_of run in
            (
              m,
              subst HasDifferentKeys same different,
              sym (ap decode_atm content)
                  ∙ decode_atm-encode_atm sent
                  ∙ ap
                      (λ n. record {
                        modified_map = m;
                        addrs = map (λ a. a.0) n;
                        account_state = map (λ a. a.1) n;
                        at_id = length c.cdm.modified_map;
                      })
                      same,
            )

    pub account_transfer_do-installs :
        (p : PbftState) (c c' : ClpaChain be) (r : Request) (n : ClpaChain be) (st : Trie)
        → propose_partition be prover tc p c ≡ some (c', r)
        → c.cdm.received_new_account_state ≡ []
        → HasState be n.chain.bc n.chain.bc.current_block.header.state_root st
        → All
            (λ a.
              HasShard be
                (update_partition_maps be (decode_atm r.content).modified_map n.chain.bc)
                a.0)
            c'.cdm.received_new_account_state
        → (n' : ClpaChain be) × (st' : Trie) × (account_transfer_do be (decode_atm r.content) n
            ≡ some n')
          × HasState be n'.chain.bc n'.chain.bc.current_block.header.state_root st'
          × (n'.chain.bc.current_block.header.number
              ≡ u64 (n.chain.bc.current_block.header.number + 1))
          × IsOver n'.cdm
          × (n'.cdm.account_transfer_round ≡ length c.cdm.modified_map)
          × ((x : Bytes)
              → balance_in be st' x ≡ (elim (lookup x c'.cdm.received_new_account_state) [
                | none ↦ balance_in be st x
                | some s ↦ if is_here n'.chain.bc x then s.balance else balance_in be st x
              ]))
    unfolding account_transfer_do
    account_transfer_do-installs p c c' r n st e none_before found shards =
        let (m, different, dec) = propose_partition-request p c c' r e none_before in
        let atm = decode_atm r.content in
        let accounts = c'.cdm.received_new_account_state in
        let routed = update_partition_maps be atm.modified_map n.chain.bc in
        let (same_db, same_block) = update_partition_maps-keeps atm.modified_map n.chain.bc in
        let paired : pair_accounts atm.addrs atm.account_state ≡ some accounts =
          rw dec (pair_accounts-map accounts) in
        let opened : HasState be routed routed.current_block.header.state_root st =
          rw (same_db, same_block) found in
        let (bc', st', run, found', here, number, ledger) =
          add_accounts-installs routed accounts st opened shards in
        (
          record { chain = record (n.chain) { bc = bc' }; cdm = after_transfer atm n.cdm },
          st',
          rw (paired, account_transfer_do) (rw run refl),
          found',
          number ∙ ap (λ b. u64 (b.header.number + 1)) same_block,
          (refl, refl, refl, refl, refl, refl),
          ap (λ a. a.at_id) dec,
          λ x.
              ledger x
              ∙ installed-lookup (is_here routed) accounts x (balance_in be st x) different
              ∙ (λ i. elim (lookup x accounts) [
                | none ↦ balance_in be st x
                | some s ↦ if sym here i x then s.balance else balance_in be st x
              ]),
        )
