-- ===== src/Clpa/Accounts.antt =====
-- Lists of accounts with their states, and what they make of the balances
-- (accountTransfer_module.go, proposePartition; chain/blockchain.go, AddAccounts).
use blockchain_sharding.Base.{
  ℕ, ◌≡◌, refl, sym, ap, ◌∙◌, inl, inr, Bool, true, ◌&&◌, Option, none, some, List, [], ◌∷◌, ◌++◌,
  Bytes, Dict, map, arith, if◌then◌else◌, Bool-cases, ℤ, lookup, insert, bytes_beq, bytes_beq_iff,
  bytes_eq, lookup-insert,
}
use blockchain_sharding.Core.Account.{AccountState}
use blockchain_sharding.Core.Transaction.{Transaction}
use blockchain_sharding.Pbft.Messages.{AccountStateAndTx}
use blockchain_sharding.Clpa.Transfer.{pair_accounts, insert_all, collect}

abbrev pub Accounts : Type 0
Accounts = Dict Bytes AccountState

-- What a list of accounts, in order, makes of one balance.
abbrev pub installed : (Bytes → Bool) → Accounts → Bytes → ℤ → ℤ
installed here [] x old = old
installed here ((a, s) ∷ rest) x old =
    installed here rest x (if here a && bytes_beq a x then s.balance else old)

abbrev pub HasDifferentKeys : Accounts → Type 0
HasDifferentKeys [] = Unit {0}
HasDifferentKeys ((a, s) ∷ rest) = (lookup a rest ≡ none) × HasDifferentKeys rest

installed-missing :
    (here : Bytes → Bool) (m : Accounts) (x : Bytes) (old : ℤ)
    → lookup x m ≡ none
    → installed here m x old ≡ old
installed-missing here [] x old h = refl
installed-missing here ((a, s) ∷ m) x old h = ground (arith, h, installed-missing here m x old)

-- With different keys it is a look-up.
pub installed-lookup :
    (here : Bytes → Bool) (m : Accounts) (x : Bytes) (old : ℤ)
    → HasDifferentKeys m
    → installed here m x old
      ≡ (elim (lookup x m) [ none ↦ old | some s ↦ if here x then s.balance else old ])
installed-lookup here [] x old h = refl
installed-lookup here ((a, s) ∷ m) x old (fresh, rest) = elim (Bool-cases (bytes_beq a x)) [
  | inl e ↦
      let same : a ≡ x = (bytes_beq_iff a x).0 e in
      rw e (
        installed-missing here m x (if here a && true then s.balance else old)
          (ap (λ k. lookup k m) (sym same) ∙ fresh)
        ∙ ground (arith, ap here same))
  | inr e ↦ ground (arith, e, installed-lookup here m x old rest)
]

HasDifferentKeys-insert :
    (k : Bytes) (s : AccountState) (m : Accounts)
    → HasDifferentKeys m
    → HasDifferentKeys (insert k s m)
HasDifferentKeys-insert k s [] h = (refl, tt)
HasDifferentKeys-insert k s ((a, t) ∷ m) (fresh, rest) = elim (Bool-cases (bytes_beq a k)) [
  | inl e ↦ rw e (fresh, rest)
  | inr e ↦ rw e (
    ground (arith, lookup-insert k a s m, bytes_beq_iff k a, bytes_beq_iff a k, e, fresh),
    HasDifferentKeys-insert k s m rest,
  )
]

HasDifferentKeys-insert_all :
    (new m : Accounts) → HasDifferentKeys m → HasDifferentKeys (insert_all new m)
unfolding insert_all
HasDifferentKeys-insert_all [] m h = h
HasDifferentKeys-insert_all ((a, s) ∷ new) m h =
    HasDifferentKeys-insert_all new (insert a s m) (HasDifferentKeys-insert a s m h)

pub collect-HasDifferentKeys :
    (msgs : List (ℕ × AccountStateAndTx)) (m : Accounts) (txs : List Transaction) (m' : Accounts)
    (txs' : List Transaction)
    → HasDifferentKeys m
    → collect msgs (m, txs) ≡ some (m', txs')
    → HasDifferentKeys m'
unfolding collect
collect-HasDifferentKeys [] m txs m' txs' h e = ground (h, e, arith)
collect-HasDifferentKeys ((sid, at) ∷ msgs) m txs m' txs' h e =
    go (pair_accounts at.addrs at.account_state) refl (λ new.
      collect-HasDifferentKeys msgs (insert_all new m) (txs ++ at.txs) m' txs'
        (HasDifferentKeys-insert_all new m h))
  where
    go :
        (r : Option Accounts)
        → pair_accounts at.addrs at.account_state ≡ r
        → ((new : Accounts)
            → collect msgs (insert_all new m, txs ++ at.txs) ≡ some (m', txs')
            → HasDifferentKeys m')
        → HasDifferentKeys m'
    go none er k = absurd (ground (arith, e, er))
    go (some new) er k = k new (rw (er, collect) at e)

pub pair_accounts-map :
    (m : Accounts) → pair_accounts (map (λ a. a.0) m) (map (λ a. a.1) m) ≡ some m
unfolding pair_accounts
pair_accounts-map [] = refl
pair_accounts-map ((a, s) ∷ m) = rw (pair_accounts-map m) refl
