-- ===== src/Base/Distinct.antt =====
-- The different numbers of a list, and the sets that Go code makes of them as maps.
use Prim.Native.Nat.{ℕ, suc}
use mathlib.Core.Path.{◌≡◌, refl, ◌∙◌}
use mathlib.Core.Bool.{Bool, true, false, ◌||◌}
use mathlib.Core.List.{List, [], ◌∷◌}
use native.Mathlib.Omega.{arith}
use blockchain_sharding.Base.Tests.{if◌then◌else◌, nat_beq, nat_beq_iff, nat_eq, Bool-cases}
use blockchain_sharding.Base.Lists.{length}
use blockchain_sharding.Base.Maps.{Dict, insert, contains, lookup-insert, length-insert}

abbrev pub member : ℕ → List ℕ → Bool
member a [] = false
member a (b ∷ l) = nat_beq b a || member a l

-- The number of different elements.
abbrev pub distinct : List ℕ → ℕ
distinct [] = 0
distinct (a ∷ l) = if member a l then distinct l else suc (distinct l)

abbrev pub enter : List ℕ → Dict ℕ Bool
enter [] = []
enter (a ∷ l) = insert a true (enter l)

contains-enter : (a : ℕ) (l : List ℕ) → contains a (enter l) ≡ member a l
contains-enter a [] = refl
contains-enter a (b ∷ l) = grind (
  arith,
  lookup-insert b a true (enter l),
  nat_beq_iff b a,
  contains-enter a l,
  Bool-cases (nat_beq b a),
)

pub length-enter : (l : List ℕ) → length (enter l) ≡ distinct l
length-enter [] = refl
length-enter (a ∷ l) =
    length-insert a true (enter l) ∙ ground (arith, contains-enter a l, length-enter l)
