-- ===== src/SortedList.antt =====
-- components/utils/sortedlinkedlist/sortedlinkedlist.go: the container of LinkedList, kept in the
-- order of `Compare`, a parameter that returns -1, 0 or 1. The struct, and `Clear`, `Len`, `Remove`,
-- `Removes`, `RemoveAll` and the iterators, are word for word those of linkedlist.go.
pub mod Order
mod Tests
use l.Base.{
  ℕ, suc, ◌+◌, Bool, true, false, not, String, Option, none, some, List, [], ◌∷◌, Map, lookup,
  insert, if◌then◌else◌, string_eq,
}
use l.Elements.{Elem, values, insert_back}
use l.LinkedList.{LinkedList, remove_each}

pub data Compared : Type 0 where
  less equal greater : Compared

abbrev pub is_greater : Compared → Bool
is_greater greater = true
is_greater _ = false

abbrev is_less : Compared → Bool
is_less less = true
is_less _ = false

module _ {T : Type 0} (key : T → String) (compare : T → T → Compared) where
  -- Behind the last element that the new one is greater than, or in front.
  unfoldable pub place : Elem T → List (Elem T) → List (Elem T)
  place e es = elim (insert_back (λ x. is_greater (compare e.value x.value)) e es) [
    | some placed ↦ placed
    | none ↦ e ∷ es
  ]

  unfoldable pub add : T → LinkedList T → LinkedList T
  unfolding place
  add element sll = elim (lookup (key element) sll.mapping) [
    | some _ ↦ sll
    | none ↦
        let e : Elem T = record { id = sll.next_id; value = element } in
        record {
          list = place e sll.list;
          mapping = insert (key element) e sll.mapping;
          next_id = sll.next_id + 1;
        }
  ]

  -- All that the element is not less than.
  not_above : T → List (Elem T) → List T
  not_above t [] = []
  not_above t (x ∷ xs) =
      let rest = not_above t xs in
      if not (is_less (compare t x.value)) then x.value ∷ rest else rest

  pub remove_before : T → LinkedList T → Option (LinkedList T × List T)
  unfolding not_above
  remove_before element sll =
      let elements = not_above element sll.list in
      elim (remove_each key elements sll) [ none ↦ none | some sll' ↦ some (sll', elements) ]

  sorted_from : T → List (Elem T) → Bool
  sorted_from pre [] = true
  sorted_from pre (x ∷ xs) =
      let rest = sorted_from x.value xs in if is_greater (compare pre x.value) then false else rest

  unfoldable pub is_sorted : LinkedList T → Bool
  unfolding sorted_from
  is_sorted sll = elim sll.list [ [] ↦ true | x ∷ xs ↦ sorted_from x.value xs ]
