-- ===== src/LinkedList.antt =====
-- components/utils/linkedlist/linkedlist.go: a list without duplicates, with a map from the key of
-- a value to its list element. `key` is the hex of the SHA-256 of the value's serialization, a
-- parameter; `==` on values is Go's equality of interface values. `next_id` supplies the identity
-- of a new element. Where the source dereferences a missing element, the result is `none`, a panic.
-- The package-level functions call these methods on one global list.
pub mod Linked
pub mod Refines
mod Tests
use l.Base.{
  ℕ, suc, ◌+◌, Bool, true, false, String, Option, none, some, List, [], ◌∷◌, ◌++◌, Map, lookup,
  insert, delete, length, take, eqb, if◌then◌else◌, string_eq, Comparable, ◌==◌,
}
use l.Elements.{Elem, unlink, values}

pub record LinkedList (T : Type 0) : Type 0 where
  pub list : List (Elem T)
  pub mapping : Map String (Elem T)
  pub next_id : ℕ

module _ {T : Type 0} where
  -- `list.Init` and a new map; `NewLinkedList` clears a zero value.
  unfoldable pub clear : LinkedList T → LinkedList T
  clear lst = record lst { list = []; mapping = [] }

  unfoldable pub new_linked_list : LinkedList T
  new_linked_list = record { list = []; mapping = []; next_id = 0 }

  pub lst_len : LinkedList T → ℕ
  lst_len lst = length lst.list

  -- The loop of `Get`, which counts before it compares.
  get_loop : ℕ → ℕ → List (Elem T) → List T
  get_loop n cnt [] = []
  get_loop n cnt (e ∷ es) =
      let rest = get_loop n (cnt + 1) es in if eqb (cnt + 1) n then e.value ∷ [] else e.value ∷ rest

  pub get : ℕ → LinkedList T → List T
  unfolding get_loop
  get n lst = get_loop n 0 lst.list

  iter_loop : (T → Bool) → List (Elem T) → Bool
  iter_loop f [] = false
  iter_loop f (e ∷ es) = if f e.value then true else iter_loop f es

  pub iter_element : (T → Bool) → LinkedList T → Bool
  unfolding iter_loop
  iter_element f lst = iter_loop f lst.list

  -- The elements in front of the first one that is `==` to `t`.
  before : ⦃e : Comparable T⦄ → T → List (Elem T) → List T
  before t [] = []
  before t (x ∷ xs) = let rest = before t xs in if x.value == t then [] else x.value ∷ rest

module _ {T : Type 0} (key : T → String) where
  pub has : T → LinkedList T → Option T
  has element lst = elim (lookup (key element) lst.mapping) [ some e ↦ some e.value | none ↦ none ]

  unfoldable pub add : T → LinkedList T → LinkedList T
  add element lst = elim (lookup (key element) lst.mapping) [
    | some _ ↦ lst
    | none ↦
        let e : Elem T = record { id = lst.next_id; value = element } in
        record {
          list = lst.list ++ (e ∷ []);
          mapping = insert (key element) e lst.mapping;
          next_id = lst.next_id + 1;
        }
  ]

  unfoldable pub remove : T → LinkedList T → LinkedList T
  remove element lst = elim (lookup (key element) lst.mapping) [
    | none ↦ lst
    | some e ↦ record lst { list = unlink e lst.list; mapping = delete (key element) lst.mapping }
  ]

  -- The loop body of `Removes` is that of `Remove`.
  unfoldable pub removes : List T → LinkedList T → LinkedList T
  removes [] lst = lst
  removes (t ∷ ts) lst = removes ts (remove t lst)

  -- The second loop of `RemoveBefore` and `RemoveAll`, which looks no `ok` up: a missing element
  -- is a nil pointer.
  unfoldable pub remove_each : List T → LinkedList T → Option (LinkedList T)
  remove_each [] lst = some lst
  remove_each (t ∷ ts) lst = elim (lookup (key t) lst.mapping) [
    | none ↦ none
    | some e ↦
        remove_each ts
          (record lst { list = unlink e lst.list; mapping = delete (key t) lst.mapping })
  ]

  pub remove_before : ⦃e : Comparable T⦄ → T → LinkedList T → Option (LinkedList T × List T)
  unfolding before
  remove_before element lst = elim (lookup (key element) lst.mapping) [
    | none ↦ some (lst, [])
    | some e ↦
        let elements = before e.value lst.list in
        elim (remove_each elements lst) [ none ↦ none | some lst' ↦ some (lst', elements) ]
  ]

  pub remove_all : LinkedList T → Option (LinkedList T × List T)
  remove_all lst =
      let elements = values lst.list in
      elim (remove_each elements lst) [ none ↦ none | some lst' ↦ some (lst', elements) ]
