-- ===== src/Utils/Bounds.antt =====
-- When an address has a default shard, and in which range it lies.
use blockchain_sharding.Base.{
  ℕ, zero, suc, ◌+◌, ◌-◌, ◌*◌, ◌%◌, ◌<◌, ◌≡◌, refl, some, List, [], ◌∷◌, Bytes, ltb, length, drop,
  arith, Bool-cases, lt→ltb, inl, inr, All, length-drop, Option-cases,
}
use blockchain_sharding.Utils.{hex_digit, hex_digits, parse_hex, last8, addr_to_shard}

-- The shard that an address falls to, when it has one, is one of the shards.
pub addr_to_shard-lt :
    (shard_num : ℕ) (addr : Bytes) {s : ℕ} → addr_to_shard shard_num addr ≡ some s → s < shard_num
unfolding addr_to_shard
addr_to_shard-lt shard_num addr h = grind (arith, Option-cases (parse_hex (last8 addr)))

abbrev pub IsHex : ℕ → Type 0
IsHex c = (d : ℕ) × (hex_digit c ≡ some d)

hex_digits_total : (acc : ℕ) (cs : Bytes) → All IsHex cs → (n : ℕ) × (hex_digits acc cs ≡ some n)
unfolding hex_digits
hex_digits_total acc [] h = (acc, refl)
hex_digits_total acc (c ∷ cs) h =
    rw (h.0.1, hex_digits) (hex_digits_total (acc * 16 + h.0.0) cs h.1)

All-drop {ℓ κ} : {A : Type ℓ} (P : A → Type κ) (n : ℕ) (xs : List A) → All P xs → All P (drop n xs)
All-drop P zero xs h = h
All-drop P (suc n) [] h = h
All-drop P (suc n) (x ∷ xs) h = All-drop P n xs h.1

All-last8 : (addr : Bytes) → All IsHex addr → All IsHex (last8 addr)
All-last8 addr h = elim (Bool-cases (ltb 8 (length addr))) [
  | inl e ↦ rw e (All-drop IsHex (length addr - 8) addr h)
  | inr e ↦ rw e h
]

length-last8_pos : (addr : Bytes) → 0 < length addr → 0 < length (last8 addr)
length-last8_pos addr h = ground (arith, length-drop (length addr - 8) addr)

parse_hex_total : (cs : Bytes) → All IsHex cs → 0 < length cs → (n : ℕ) × (parse_hex cs ≡ some n)
unfolding parse_hex
parse_hex_total [] h p = absurd (omega arith)
parse_hex_total (c ∷ cs) h p = hex_digits_total 0 (c ∷ cs) h

-- An address of hexadecimal digits that is not empty has a default shard, provided that there is a
-- shard at all, and it is one of them.
addr_to_shard_total :
    (shard_num : ℕ) (addr : Bytes)
    → All IsHex addr
    → 0 < length addr
    → 0 < shard_num
    → (s : ℕ) × (addr_to_shard shard_num addr ≡ some s) × (s < shard_num)
unfolding addr_to_shard
addr_to_shard_total shard_num addr h p n =
    let parsed = parse_hex_total (last8 addr) (All-last8 addr h) (length-last8_pos addr p) in
    (parsed.0 % shard_num, rw (parsed.1, lt→ltb 0 shard_num n) refl, grind arith)
