-- ===== src/Chain/Conservation.antt =====
-- Totals and signs of the balances of the abstract ledger (chain/blockchain.go).
use blockchain_sharding.Base.{
  ℕ, ◌≡◌, refl, ◌∙◌, inl, inr, Bool, true, List, [], ◌∷◌, Bytes, bytes_beq, bytes_beq_iff, ltb_ℤ, ℤ,
  pos, ◌+ℤ◌, ◌-ℤ◌, ◌≤ℤ◌, All, arith, Bool-cases, int_laws, count,
}
use blockchain_sharding.Core.Transaction.{Transaction}
use blockchain_sharding.Chain.Ledger.{LedgerView, credit, debit, transfer, transfers}

-- The money that the listed addresses hold.
abbrev pub total : LedgerView → List Bytes → ℤ
total l [] = pos 0
total l (a ∷ rest) = l a +ℤ total l rest

-- How often an address is listed.
abbrev pub occurs : Bytes → List Bytes → ℕ
occurs a addrs = count (bytes_beq a) addrs

total-credit_absent :
    (l : LedgerView) (a : Bytes) (v : ℤ) (addrs : List Bytes)
    → occurs a addrs ≡ 0
    → total (credit l a v) addrs ≡ total l addrs
unfolding credit
total-credit_absent l a v [] h = refl
total-credit_absent l a v (b ∷ bs) h = grind (int_laws, total-credit_absent l a v bs)

total-credit :
    (l : LedgerView) (a : Bytes) (v : ℤ) (addrs : List Bytes)
    → occurs a addrs ≡ 1
    → total (credit l a v) addrs ≡ total l addrs +ℤ v
unfolding credit
total-credit l a v [] h = absurd (omega arith)
total-credit l a v (b ∷ bs) h =
    grind (int_laws, total-credit l a v bs, total-credit_absent l a v bs)

total-debit_absent :
    (l : LedgerView) (a : Bytes) (v : ℤ) (addrs : List Bytes)
    → occurs a addrs ≡ 0
    → total (debit l a v) addrs ≡ total l addrs
unfolding debit
total-debit_absent l a v [] h = refl
total-debit_absent l a v (b ∷ bs) h = grind (int_laws, total-debit_absent l a v bs)

total-debit :
    (l : LedgerView) (a : Bytes) (v : ℤ) (addrs : List Bytes)
    → occurs a addrs ≡ 1
    → total (debit l a v) addrs ≡ total l addrs -ℤ v
unfolding debit
total-debit l a v [] h = absurd (omega arith)
total-debit l a v (b ∷ bs) h = grind (int_laws, total-debit l a v bs, total-debit_absent l a v bs)

-- Both ends of a transaction are listed, once each.
abbrev pub IsListed : List Bytes → Transaction → Type 0
IsListed addrs tx = (occurs tx.sender addrs ≡ 1) × (occurs tx.recipient addrs ≡ 1)

total-transfer :
    (tx : Transaction) (l : LedgerView) (addrs : List Bytes)
    → IsListed addrs tx
    → total (transfer true true tx l) addrs ≡ total l addrs
unfolding transfer
total-transfer tx l addrs (hs, hr) = elim (Bool-cases (ltb_ℤ (l tx.sender) tx.value)) [
  | inl poor ↦ rw poor refl
  | inr covered ↦
      rw
        (
          covered,
          total-credit (debit l tx.sender tx.value) tx.recipient tx.value addrs hr,
          total-debit l tx.sender tx.value addrs hs,
        )
        (omega int_laws)
]

-- A shard that keeps both ends of every transaction of a block neither makes nor loses money: the
-- addresses that the block names hold the same total before and after.
pub total-transfers :
    (txs : List Transaction) (l : LedgerView) (addrs : List Bytes)
    → All (IsListed addrs) txs
    → total (transfers (λ tx. true) (λ tx. true) txs l) addrs ≡ total l addrs
unfolding transfers
total-transfers [] l addrs h = refl
total-transfers (tx ∷ txs) l addrs h =
    total-transfers txs (transfer true true tx l) addrs h.1 ∙ total-transfer tx l addrs h.0

transfer-nonneg :
    (from_here to_here : Bool) (tx : Transaction) (l : LedgerView)
    → pos 0 ≤ℤ tx.value
    → ((x : Bytes) → pos 0 ≤ℤ l x)
    → (x : Bytes) → pos 0 ≤ℤ transfer from_here to_here tx l x
unfolding transfer credit debit
transfer-nonneg from_here to_here tx l hv h x =
    grind (int_laws, h x, h tx.sender, bytes_beq_iff tx.sender x)

-- Whatever this shard keeps of their ends, transactions of values that are not negative never
-- bring a balance below zero that was not below zero before.
pub transfers-nonneg :
    (from_here to_here : Transaction → Bool) (txs : List Transaction) (l : LedgerView)
    → All (λ tx. pos 0 ≤ℤ tx.value) txs
    → ((x : Bytes) → pos 0 ≤ℤ l x)
    → (x : Bytes) → pos 0 ≤ℤ transfers from_here to_here txs l x
unfolding transfers
transfers-nonneg from_here to_here [] l hv h x = h x
transfers-nonneg from_here to_here (tx ∷ txs) l hv h x =
    transfers-nonneg from_here to_here txs (transfer (from_here tx) (to_here tx) tx l) hv.1
      (transfer-nonneg (from_here tx) (to_here tx) tx l hv.0 h) x
