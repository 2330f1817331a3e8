-- ===== src/Utils.antt =====
-- utils/utils_partition.go: the default shard of an address, and the residue of a hash. What
-- `strconv.ParseUint` and `big.Int` do to the arguments that occur here is written out: at most
-- eight hexadecimal digits, so no overflow, and big-endian bytes.
pub mod Bounds
use blockchain_sharding.Base.{
  ℕ, zero, suc, ◌+◌, ◌-◌, ◌*◌, ◌%◌, Bool, true, false, Option, none, some, List, [], ◌∷◌, Bytes,
  ltb, leb, ◌&&◌, if◌then◌else◌, length, drop, guard, ◌>>=◌, ◌>>◌,
}

-- `ParseUint(_, 16, 64)` on one character.
unfoldable pub hex_digit : ℕ → Option ℕ
hex_digit c =
    if leb b'0' c && leb c b'9'
    then some (c - b'0')
    else if leb b'a' c && leb c b'f'
    then some (c - b'a' + 10)
    else if leb b'A' c && leb c b'F'
    then some (c - b'A' + 10)
    else none

pub hex_digits : ℕ → Bytes → Option ℕ
unfolding hex_digit
hex_digits acc [] = some acc
hex_digits acc (c ∷ cs) = elim (hex_digit c) [ none ↦ none | some d ↦ hex_digits (acc * 16 + d) cs ]

-- The empty string is a syntax error.
unfoldable pub parse_hex : Bytes → Option ℕ
unfolding hex_digits
parse_hex [] = none
parse_hex (c ∷ cs) = hex_digits 0 (c ∷ cs)

abbrev pub last8 : Bytes → Bytes
last8 addr = if ltb 8 (length addr) then drop (length addr - 8) addr else addr

-- `Addr2Shard`; `none` is its `log.Panic`, or a division by zero shards.
unfoldable pub addr_to_shard : ℕ → Bytes → Option ℕ
unfolding parse_hex
addr_to_shard shard_num addr = do
  num ← parse_hex (last8 addr)
  guard (ltb 0 shard_num)
  some (num % shard_num)

-- `big.Int.SetBytes`
pub set_bytes : ℕ → Bytes → ℕ
set_bytes acc [] = acc
set_bytes acc (b ∷ bs) = set_bytes (acc * 256 + b) bs

unfoldable pub mod_bytes : Bytes → ℕ → ℕ
unfolding set_bytes
mod_bytes bytes modulus = set_bytes 0 bytes % modulus
