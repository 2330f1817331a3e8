-- ===== src/Tests/Codec.antt =====
-- An encoding of blocks, headers and accounts as numbers, in place of gob.
use blockchain_sharding.Base.{
  ℕ, zero, suc, ◌≡◌, refl, ap, ◌∙◌, if◌then◌else◌, Bool, true, false, List, [], ◌∷◌, Bytes, ℤ, pos,
  negsuc, length,
}
use blockchain_sharding.Core.Account.{AccountState}
use blockchain_sharding.Core.Block.{BlockHeader, Block}
use blockchain_sharding.Core.Transaction.{Transaction}

-- A way to write values in front of other bytes and to read them back.
pub record Ser (A : Type 0) : Type 0 where
  pub put : A → Bytes → Bytes
  pub read : Bytes → A × Bytes
  pub read-put : (a : A) (rest : Bytes) → read (put a rest) ≡ (a, rest)

abbrev pub put_nat : ℕ → Bytes → Bytes
put_nat n rest = n ∷ rest

abbrev pub read_nat : Bytes → ℕ × Bytes
read_nat [] = (0, [])
read_nat (n ∷ rest) = (n, rest)

abbrev pub nat_ser : Ser ℕ
nat_ser = record { put = put_nat; read = read_nat; read-put = λ a rest. refl }

module _ {A B : Type 0} where
  abbrev pub pair_ser : Ser A → Ser B → Ser (A × B)
  pair_ser sa sb = record {
    put = λ p rest. sa.put p.0 (sb.put p.1 rest);
    read = λ bs. let (a, bs') = sa.read bs in let (b, bs'') = sb.read bs' in ((a, b), bs'');
    read-put = λ p rest.
        ap (λ r. ((r.0, (sb.read r.1).0), (sb.read r.1).1)) (sa.read-put p.0 (sb.put p.1 rest))
        ∙ ap (λ r. ((p.0, r.0), r.1)) (sb.read-put p.1 rest);
  }

  abbrev pub iso_ser : (f : B → A) (g : A → B) → ((b : B) → g (f b) ≡ b) → Ser A → Ser B
  iso_ser f g h sa = record {
    put = λ b rest. sa.put (f b) rest;
    read = λ bs. let (a, bs') = sa.read bs in (g a, bs');
    read-put =
        λ b rest. ap (λ r. (g r.0, r.1)) (sa.read-put (f b) rest) ∙ ap (λ x. (x, rest)) (h b);
  }

module _ {A : Type 0} (sa : Ser A) where
  abbrev pub put_all : List A → Bytes → Bytes
  put_all [] rest = rest
  put_all (a ∷ l) rest = sa.put a (put_all l rest)

  abbrev pub read_all : ℕ → Bytes → List A × Bytes
  read_all zero bs = ([], bs)
  read_all (suc n) bs = let (a, bs') = sa.read bs in let (l, bs'') = read_all n bs' in (a ∷ l, bs'')

  pub read_all-put_all :
      (l : List A) (rest : Bytes) → read_all (length l) (put_all l rest) ≡ (l, rest)
  read_all-put_all [] rest = refl
  read_all-put_all (a ∷ l) rest =
      ap (λ r. (r.0 ∷ (read_all (length l) r.1).0, (read_all (length l) r.1).1))
        (sa.read-put a (put_all l rest))
      ∙ ap (λ r. (a ∷ r.0, r.1)) (read_all-put_all l rest)

  abbrev pub put_list : List A → Bytes → Bytes
  put_list l rest = length l ∷ put_all l rest

  abbrev pub read_list : Bytes → List A × Bytes
  read_list [] = ([], [])
  read_list (n ∷ bs) = read_all n bs

  abbrev pub list_ser : Ser (List A)
  list_ser = record { put = put_list; read = read_list; read-put = read_all-put_all }

abbrev pub bytes_ser : Ser Bytes
bytes_ser = list_ser nat_ser

pub bool-from_nat :
    (b : Bool) → (elim (if◌then◌else◌ {A = ℕ} b 1 0) [ zero ↦ false | suc _ ↦ true ]) ≡ b
bool-from_nat true = refl
bool-from_nat false = refl

abbrev pub bool_ser : Ser Bool
bool_ser =
    iso_ser {A = ℕ} (λ b. if b then 1 else 0) (λ n. elim n [ zero ↦ false | suc _ ↦ true ])
      bool-from_nat nat_ser

abbrev pub from_int : ℤ → Bool × ℕ
from_int (pos n) = (true, n)
from_int (negsuc n) = (false, n)

abbrev pub to_int : Bool × ℕ → ℤ
to_int (b, n) = if b then pos n else negsuc n

pub to_int-from_int : (z : ℤ) → to_int (from_int z) ≡ z
to_int-from_int (pos n) = refl
to_int-from_int (negsuc n) = refl

abbrev pub int_ser : Ser ℤ
int_ser = iso_ser from_int to_int to_int-from_int (pair_ser bool_ser nat_ser)

abbrev pub AccountFields : Type 0
AccountFields = Bytes × (ℕ × (ℤ × (Bytes × Bytes)))

abbrev pub account_ser : Ser AccountState
account_ser =
    iso_ser {A = AccountFields}
      (λ s. (s.ac_address, (s.nonce, (s.balance, (s.storage_root, s.code_hash)))))
      (λ (a, (n, (b, (r, c)))). record {
        ac_address = a;
        nonce = n;
        balance = b;
        storage_root = r;
        code_hash = c;
      })
      (λ s. refl)
      (pair_ser bytes_ser (pair_ser nat_ser (pair_ser int_ser (pair_ser bytes_ser bytes_ser))))

abbrev pub HeaderFields : Type 0
HeaderFields = Bytes × (Bytes × (Bytes × (Bytes × (ℕ × (ℕ × ℕ)))))

abbrev pub header_ser : Ser BlockHeader
header_ser =
    iso_ser {A = HeaderFields}
      (λ h. (
        h.parent_block_hash,
        (h.state_root, (h.tx_root, (h.bloom, (h.number, (h.time, h.miner))))),
      ))
      (λ (p, (s, (t, (b, (n, (at, m)))))). record {
        parent_block_hash = p;
        state_root = s;
        tx_root = t;
        bloom = b;
        number = n;
        time = at;
        miner = m;
      })
      (λ h. refl)
      (pair_ser bytes_ser (
        pair_ser bytes_ser
          (pair_ser bytes_ser (pair_ser bytes_ser (pair_ser nat_ser (pair_ser nat_ser nat_ser))))))

abbrev pub TxFields : Type 0
TxFields =
    Bytes
    × (Bytes
        × (ℕ
            × (Bytes × (ℤ × (Bytes × (ℕ × (Bool × (Bool × (Bool × (Bytes × (Bytes × Bytes)))))))))))

abbrev pub tx_ser : Ser Transaction
tx_ser =
    iso_ser {A = TxFields}
      (λ t. (
        t.sender,
        (
          t.recipient,
          (
            t.nonce,
            (
              t.signature,
              (
                t.value,
                (
                  t.tx_hash,
                  (
                    t.time,
                    (
                      t.relayed,
                      (
                        t.has_broker,
                        (
                          t.sender_is_broker,
                          (t.original_sender, (t.final_recipient, t.raw_tx_hash)),
                        ),
                      ),
                    ),
                  ),
                ),
              ),
            ),
          ),
        ),
      ))
      (λ (s, (r, (n, (sg, (v, (h, (at, (rl, (hb, (sb, (os, (fr, rh)))))))))))). record {
        sender = s;
        recipient = r;
        nonce = n;
        signature = sg;
        value = v;
        tx_hash = h;
        time = at;
        relayed = rl;
        has_broker = hb;
        sender_is_broker = sb;
        original_sender = os;
        final_recipient = fr;
        raw_tx_hash = rh;
      })
      (λ t. refl)
      (pair_ser bytes_ser (
        pair_ser bytes_ser (
          pair_ser nat_ser (
            pair_ser bytes_ser (
              pair_ser int_ser (
                pair_ser bytes_ser (
                  pair_ser nat_ser (
                    pair_ser bool_ser (
                      pair_ser bool_ser (
                        pair_ser bool_ser
                          (pair_ser bytes_ser (pair_ser bytes_ser bytes_ser))))))))))))

abbrev pub block_ser : Ser Block
block_ser =
    iso_ser {A = BlockHeader × (List Transaction × Bytes)} (λ b. (b.header, (b.body, b.hash)))
      (λ (h, (l, d)). record { header = h; body = l; hash = d }) (λ b. refl)
      (pair_ser header_ser (pair_ser (list_ser tx_ser) bytes_ser))
