-- ===== src/Tests/Pools.antt =====
-- Message frames.
use blockchain_sharding.Base.{◌≡◌, some, Bytes, arith, ◌>>=◌}
use blockchain_sharding.Message.{codes, merge_message, split_message}
use blockchain_sharding.Message.Roundtrip.{IsFramable, split-merge}

abbrev hello : Bytes
hello = codes "hello"

relay_type-IsFramable : IsFramable (codes "relay")
relay_type-IsFramable = (
  (
    λ e. omega (arith, e),
    (
      λ e. omega (arith, e),
      (λ e. omega (arith, e), (λ e. omega (arith, e), (λ e. omega (arith, e), tt))),
    ),
  ),
  omega arith,
)

split-merge_example :
    (merge_message (codes "relay") hello >>= split_message) ≡ some (codes "relay", hello)
split-merge_example = split-merge (codes "relay") hello relay_type-IsFramable
