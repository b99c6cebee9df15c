-- ===== src/SortedList/Tests.antt =====
-- Numbers in ascending order, all under keys of one letter.
use l.Base.{ℕ, ◌≡◌, ◌≢◌, refl, true, String, [], ◌∷◌, ltb, eqb, if◌then◌else◌, arith}
use l.Elements.{Elem}
use l.LinkedList.{LinkedList}
use l.SortedList.{Compared, less, equal, greater, add, is_sorted}
use l.SortedList.Order.{add-is_sorted}

abbrev digit : ℕ → String
digit n = if eqb n 5 then "5" else "3"

abbrev by_size : ℕ → ℕ → Compared
by_size a b = if ltb a b then less else if ltb b a then greater else equal

by_size_asym : (a b : ℕ) → by_size a b ≡ greater → by_size b a ≢ greater
by_size_asym a b h = ground arith

abbrev one_number : LinkedList ℕ
one_number = record {
  list = record { id = 0; value = 5 } ∷ [];
  mapping = ("5", record { id = 0; value = 5 }) ∷ [];
  next_id = 1;
}

one_number_sorted : is_sorted digit by_size one_number ≡ true
unfolding is_sorted
one_number_sorted = refl

add-is_sorted_example : is_sorted digit by_size (add digit by_size 3 one_number) ≡ true
add-is_sorted_example = add-is_sorted digit by_size by_size_asym 3 one_number one_number_sorted

abbrev three : Elem ℕ
three = record { id = 1; value = 3 }
