-- ===== src/Pbft/Removal.antt =====
-- `DeleteElementsInList` of toolFuncs.go. A slice with a negative bound is a panic, `none`.
use blockchain_sharding.Base.{
  ℕ, ◌+◌, ◌≡◌, ◌↔◌, refl, Bool, true, not, Option, none, some, List, [], ◌∷◌, Bytes, Dict, insert,
  contains, bytes_eq, nat_beq, if◌then◌else◌, keep, arith,
}
use blockchain_sharding.Core.Transaction.{Transaction}

-- `elementHashMap`
unfoldable element_hash_map : List Transaction → Dict Bytes Bool → Dict Bytes Bool
element_hash_map [] m = m
element_hash_map (tx ∷ txs) m = element_hash_map txs (insert tx.tx_hash true m)

-- The number of elements of the list that are to be deleted.
unfoldable removed_cnt : Dict Bytes Bool → List Transaction → ℕ
removed_cnt m [] = 0
removed_cnt m (tx ∷ txs) =
    let rest = removed_cnt m txs in if contains tx.tx_hash m then rest + 1 else rest

-- `list[:-removedCnt]`
unfoldable delete_elements_in_list : List Transaction → List Transaction → Option (List Transaction)
unfolding element_hash_map removed_cnt
delete_elements_in_list list elements =
    if nat_beq (removed_cnt (element_hash_map elements []) list) 0 then some [] else none

-- The elements that are not to be deleted.
abbrev others : Dict Bytes Bool → List Transaction → List Transaction
others m list = keep (λ tx. not (contains tx.tx_hash m)) list

others-all :
    (m : Dict Bytes Bool) (list : List Transaction) → removed_cnt m list ≡ 0 → others m list ≡ list
unfolding removed_cnt
others-all m [] e = refl
others-all m (tx ∷ txs) e = ground (arith, e, others-all m txs)

-- `DeleteElementsInList` gives the list without the elements to delete exactly for the empty list.
delete_elements_in_list_lem :
    (list elements : List Transaction)
    → (delete_elements_in_list list elements ≡ some (others (element_hash_map elements []) list))
      ↔ (list ≡ [])
unfolding delete_elements_in_list removed_cnt
delete_elements_in_list_lem [] elements = (λ e. refl, λ e. refl)
delete_elements_in_list_lem (tx ∷ txs) elements = (
  λ e. absurd (ground (arith, e, others-all (element_hash_map elements []) (tx ∷ txs))),
  λ e. absurd (ground (arith, e)),
)
