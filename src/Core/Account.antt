-- ===== src/Core/Account.antt =====
-- core/account.go: the state of an account, and the two changes of its balance.
use blockchain_sharding.Base.{ℕ, Bool, true, false, Bytes, ℤ, ◌+ℤ◌, ◌-ℤ◌, ltb_ℤ, if◌then◌else◌}

pub record AccountState : Type 0 where
  pub ac_address : Bytes
  pub nonce : ℕ
  pub balance : ℤ
  pub storage_root : Bytes
  pub code_hash : Bytes

-- The answer says whether the balance covered the value.
unfoldable pub deduct : AccountState → ℤ → AccountState × Bool
deduct acc val =
    if ltb_ℤ acc.balance val
    then (acc, false)
    else (record acc { balance = acc.balance -ℤ val }, true)

unfoldable pub deposit : AccountState → ℤ → AccountState
deposit s value = record s { balance = s.balance +ℤ value }
