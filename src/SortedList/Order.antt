-- ===== src/SortedList/Order.antt =====
-- `Add` keeps the list in order.
use mathlib.Core.List.{Perm}
use mathlib.Core.List.Perm
use l.Base.{
  ◌≡◌, ◌≢◌, refl, sym, ◌∙◌, subst, inl, inr, Bool, true, false, String, none, some, List, [], ◌∷◌,
  arith, lookup, string_eq, Option-cases,
}
use l.Elements.{Elem, insert_back}
use l.LinkedList.{LinkedList}
use l.SortedList.{Compared, greater, is_greater, place, add, is_sorted, sorted_from}

module _ {T : Type 0} (key : T → String) (compare : T → T → Compared)
    (asym : (a b : T) → compare a b ≡ greater → compare b a ≢ greater) where
  abbrev behind : Elem T → Elem T → Bool
  behind e x = is_greater (compare e.value x.value)

  greater_iff : (c : Compared) → is_greater c ≡ true → c ≡ greater
  greater_iff c h = ground arith

  not_greater : (c : Compared) → c ≢ greater → is_greater c ≡ false
  not_greater c h = ground arith

  -- An item that no element is behind goes to the front of them.
  none-behind :
      (e : Elem T) (xs : List (Elem T))
      → insert_back (behind e) e xs ≡ none
      → sorted_from key compare e.value xs
        ≡ (elim xs [ [] ↦ true | x ∷ r ↦ sorted_from key compare x.value r ])
  unfolding insert_back sorted_from
  none-behind e [] h = refl
  none-behind e (x ∷ xs) h = elim (Option-cases (insert_back (behind e) e xs)) [
    | inl none_later ↦ ground arith
    | inr (placed, later) ↦ ground arith
  ]

  tail_sorted :
      (t : T) (xs : List (Elem T))
      → sorted_from key compare t xs ≡ true
      → (elim xs [ [] ↦ true | x ∷ r ↦ sorted_from key compare x.value r ]) ≡ true
  unfolding sorted_from
  tail_sorted t [] h = refl
  tail_sorted t (x ∷ xs) h = ground arith

  placed_sorted :
      (e : Elem T) (pre : T) (xs ys : List (Elem T))
      → insert_back (behind e) e xs ≡ some ys
      → sorted_from key compare pre xs ≡ true
      → sorted_from key compare pre ys ≡ true
  unfolding insert_back sorted_from
  placed_sorted e pre [] ys h s = cc
  placed_sorted e pre (x ∷ xs) ys h s = elim (Option-cases (insert_back (behind e) e xs)) [
    | inr (placed, later) ↦
        let shape : x ∷ placed ≡ ys = ground arith in
        subst (λ l. sorted_from key compare pre l ≡ true) shape
          (ground (arith, placed_sorted e x.value xs placed later))
    | inl none_later ↦
        let shape : x ∷ e ∷ xs ≡ ys = ground arith in
        let above : compare e.value x.value ≡ greater = ground arith in
        let below : is_greater (compare x.value e.value) ≡ false =
          not_greater (compare x.value e.value) (asym e.value x.value above) in
        subst (λ l. sorted_from key compare pre l ≡ true) shape
          (ground (arith, below, none-behind e xs none_later, tail_sorted x.value xs))
  ]

  abbrev AllSorted : List (Elem T) → Type 0
  AllSorted xs = (elim xs [ [] ↦ true | x ∷ r ↦ sorted_from key compare x.value r ]) ≡ true

  self : (t : T) → is_greater (compare t t) ≡ false
  self t = not_greater (compare t t) (λ h. asym t t h h)

  place_sorted :
      (e : Elem T) (xs : List (Elem T)) → AllSorted xs → AllSorted (place key compare e xs)
  unfolding place insert_back sorted_from
  place_sorted e [] s = refl
  place_sorted e (x ∷ xs) s = elim (Option-cases (insert_back (behind e) e (x ∷ xs))) [
    | inr (ys, found) ↦
        let put : place key compare e (x ∷ xs) ≡ ys = rw (found, place) in
        subst AllSorted (sym put) (
          tail_sorted x.value ys
            (placed_sorted e x.value (x ∷ xs) ys found (ground (arith, self x.value))))
    | inl none_found ↦
        let put : place key compare e (x ∷ xs) ≡ e ∷ x ∷ xs = rw (none_found, place) in
        subst AllSorted (sym put) (none-behind e (x ∷ xs) none_found ∙ s)
  ]

  -- If `Compare` never says greater both ways, adding an element to a sorted list leaves it
  -- sorted.
  pub add-is_sorted :
      (t : T) (sll : LinkedList T)
      → is_sorted key compare sll ≡ true
      → is_sorted key compare (add key compare t sll) ≡ true
  unfolding add is_sorted
  add-is_sorted t sll s = elim (Option-cases (lookup (key t) sll.mapping)) [
    | inr (old, there) ↦ rw (there, add) s
    | inl new ↦ rw (new, add) (place_sorted (record { id = sll.next_id; value = t }) sll.list s)
  ]

  insert_back-perm :
      (test : Elem T → Bool) (e : Elem T) (xs ys : List (Elem T))
      → insert_back test e xs ≡ some ys
      → Perm ys (e ∷ xs)
  unfolding insert_back
  insert_back-perm test e [] ys h = cc
  insert_back-perm test e (x ∷ xs) ys h = elim (Option-cases (insert_back test e xs)) [
    | inr (placed, later) ↦
        let shape : x ∷ placed ≡ ys = ground arith in
        subst (λ l. Perm l (e ∷ x ∷ xs)) shape
          (Perm.trans (Perm.cons x (insert_back-perm test e xs placed later)) (Perm.swap e x xs))
    | inl none_later ↦
        let shape : x ∷ e ∷ xs ≡ ys = ground arith in
        subst (λ l. Perm l (e ∷ x ∷ xs)) shape (Perm.swap e x xs)
  ]

  -- The place that `Add` finds for a new element loses no old element and doubles none.
  pub place-perm : (e : Elem T) (xs : List (Elem T)) → Perm (place key compare e xs) (e ∷ xs)
  unfolding place
  place-perm e xs = elim (Option-cases (insert_back (behind e) e xs)) [
    | inr (placed, found) ↦ rw (found, place) (insert_back-perm (behind e) e xs placed found)
    | inl none_found ↦ rw (none_found, place) (Perm.refl (e ∷ xs))
  ]
