-- ===== src/LinkedList/Linked.antt =====
-- The map and the list of a LinkedList name the same elements, and each method keeps it so.
use l.Base.{
  ◌+◌, ◌≡◌, ◌≢◌, refl, sym, ap, ◌∙◌, String, none, some, List, [], ◌∷◌, ◌++◌, arith, lookup, insert,
  delete, All, eqb_self, ==_iff, string_eq, Option-cases, inl, inr, lookup-insert, lookup-delete,
  All-append,
}
use l.Elements.{
  Elem, unlink, values, UniqueIds, UniqueKeys, Below, Below-suc, Below-fresh, find_key,
  find_key-append, find_key-unlink, unlink-All, unlink-UniqueIds, unlink-UniqueKeys,
}
use l.LinkedList.{LinkedList, new_linked_list, add, remove, removes, remove_each}

module _ {T : Type 0} (key : T → String) where
  -- The map finds the list's elements by their keys, and no identity and no key stands twice.
  pub record IsLinked (lst : LinkedList T) : Type 0 where
    pub agrees : (k : String) → lookup k lst.mapping ≡ find_key key k lst.list
    pub ids : UniqueIds lst.list
    pub keys : UniqueKeys key lst.list
    pub below : Below lst.next_id lst.list

  pub new-IsLinked : IsLinked new_linked_list
  unfolding new_linked_list lookup find_key
  new-IsLinked = record { agrees = λ k. refl; ids = tt; keys = tt; below = tt }

  pub UniqueIds-append :
      (e : Elem T) (xs : List (Elem T))
      → UniqueIds xs
      → All (λ y. y.id ≢ e.id) xs
      → UniqueIds (xs ++ (e ∷ []))
  UniqueIds-append e [] u a = (tt, tt)
  UniqueIds-append e (x ∷ xs) u a = (
    All-append (λ y. y.id ≢ x.id) xs (e ∷ []) u.0 ((λ h. a.0 (sym h)), tt),
    UniqueIds-append e xs u.1 a.1,
  )

  pub UniqueKeys-append :
      (e : Elem T) (xs : List (Elem T))
      → UniqueKeys key xs
      → find_key key (key e.value) xs ≡ none
      → UniqueKeys key (xs ++ (e ∷ []))
  unfolding find_key
  UniqueKeys-append e [] u a = (refl, tt)
  UniqueKeys-append e (x ∷ xs) u a = (
    ground (
      arith,
      find_key-append key (key x.value) xs (e ∷ []),
      u.0,
      ==_iff (key e.value) (key x.value),
      ==_iff (key x.value) (key e.value),
    ),
    UniqueKeys-append e xs u.1 (ground arith),
  )

  pub add_new :
      (t : T) (lst : LinkedList T)
      → lookup (key t) lst.mapping ≡ none
      → add key t lst ≡ record {
        list = lst.list ++ (record { id = lst.next_id; value = t } ∷ []);
        mapping = insert (key t) (record { id = lst.next_id; value = t }) lst.mapping;
        next_id = lst.next_id + 1;
      }
  unfolding add
  add_new t lst new = rw (new, add)

  pub add_old :
      (t : T) (e : Elem T) (lst : LinkedList T)
      → lookup (key t) lst.mapping ≡ some e
      → add key t lst ≡ lst
  unfolding add
  add_old t e lst old = rw (old, add)

  new-agrees :
      (t : T) (lst : LinkedList T) (e : Elem T)
      → IsLinked lst
      → e.value ≡ t
      → lookup (key t) lst.mapping ≡ none
      → (k : String)
      → lookup k (insert (key t) e lst.mapping) ≡ find_key key k (lst.list ++ (e ∷ []))
  unfolding find_key
  new-agrees t lst e i same new k =
      rw (lookup-insert (key t) k, find_key-append key k)
        (ground (arith, i.agrees k, ==_iff (key t) k))

  -- `Add` keeps a linked list together: its map finds its elements by their keys, and no
  -- identity and no key stands twice.
  pub add-IsLinked : (t : T) (lst : LinkedList T) → IsLinked lst → IsLinked (add key t lst)
  add-IsLinked t lst i = elim (Option-cases (lookup (key t) lst.mapping)) [
    | inr (e, old) ↦ rw (add_old t e lst old) i
    | inl new ↦
        let e : Elem T = record { id = lst.next_id; value = t } in
        rw (add_new t lst new) (record {
          agrees = new-agrees t lst e i refl new;
          ids = UniqueIds-append e lst.list i.ids (Below-fresh lst.next_id lst.list i.below);
          keys = UniqueKeys-append e lst.list i.keys (sym (i.agrees (key t)) ∙ new);
          below =
              All-append _ lst.list (e ∷ []) (Below-suc lst.next_id lst.list i.below)
                (omega arith, tt);
        })
  ]

  -- To take a found element out of both.
  pub drop-IsLinked :
      (k : String) (e : Elem T) (lst : LinkedList T)
      → IsLinked lst
      → lookup k lst.mapping ≡ some e
      → IsLinked (record lst { list = unlink e lst.list; mapping = delete k lst.mapping })
  drop-IsLinked k e lst i h =
      let found : find_key key k lst.list ≡ some e = sym (i.agrees k) ∙ h in
      record {
        agrees = λ j.
            rw (
              lookup-delete k j,
              find_key-unlink key k j e lst.list i.ids i.keys found,
              i.agrees j,
            );
        ids = unlink-UniqueIds e lst.list i.ids;
        keys = unlink-UniqueKeys key k e lst.list i.ids i.keys found;
        below = unlink-All _ e lst.list i.below;
      }

  -- `Remove` keeps a linked list together, whether the key is there or not.
  pub remove-IsLinked : (t : T) (lst : LinkedList T) → IsLinked lst → IsLinked (remove key t lst)
  unfolding remove
  remove-IsLinked t lst i = elim (Option-cases (lookup (key t) lst.mapping)) [
    | inl missing ↦ rw (missing, remove) i
    | inr (e, found) ↦ rw (found, remove) (drop-IsLinked (key t) e lst i found)
  ]

  pub removes-IsLinked :
      (ts : List T) (lst : LinkedList T) → IsLinked lst → IsLinked (removes key ts lst)
  unfolding removes
  removes-IsLinked [] lst i = i
  removes-IsLinked (t ∷ ts) lst i = removes-IsLinked ts (remove key t lst) (remove-IsLinked t lst i)

  here :
      (k : String) (e : Elem T) (xs : List (Elem T))
      → key e.value ≡ k
      → find_key key k (e ∷ xs) ≡ some e
  unfolding find_key
  here k e xs h = ground (arith, ==_iff (key e.value) k)

  front_unlink : (e : Elem T) (xs : List (Elem T)) → unlink e (e ∷ xs) ≡ xs
  unfolding unlink
  front_unlink e xs = rw (eqb_self e.id)

  -- To remove the values at the front, one by one, meets no missing element and leaves the rest.
  pub remove_each_front :
      (es rest : List (Elem T)) (lst : LinkedList T)
      → IsLinked lst
      → lst.list ≡ es ++ rest
      → (lst' : LinkedList T) × (remove_each key (values es) lst ≡ some lst')
        × IsLinked lst'
        × (lst'.list ≡ rest)
  unfolding remove_each
  remove_each_front [] rest lst i h = (lst, refl, i, h)
  remove_each_front (e ∷ es) rest lst i h =
      let k = key e.value in
      let found : lookup k lst.mapping ≡ some e =
        i.agrees k ∙ (ap (find_key key k) h ∙ here k e (es ++ rest) refl) in
      let front : unlink e lst.list ≡ es ++ rest = ap (unlink e) h ∙ front_unlink e (es ++ rest) in
      let (lst', done, linked, left) =
        remove_each_front es rest
          (record lst { list = unlink e lst.list; mapping = delete k lst.mapping })
          (drop-IsLinked k e lst i found) front in
      (lst', rw (found, remove_each) done, linked, left)
