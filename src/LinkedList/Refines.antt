-- ===== src/LinkedList/Refines.antt =====
-- What a LinkedList promises: a list of values without two of one key, in the order of insertion.
use l.Base.{
  ℕ, suc, zero, ◌+◌, ◌≡◌, ◌≢◌, refl, sym, ap, ◌∙◌, subst, String, Option, none, some, List, [], ◌∷◌,
  ◌++◌, arith, lookup, take, All, eqb, if◌then◌else◌, ◌==◌, ==_iff, string_eq, Bool-cases,
  Option-cases, inl, inr, Comparable,
}
use native.Mathlib.Nat.{add-zero}
use mathlib.Core.List.{map-append, append-nil}
use l.Elements.{Elem, values, find_key, without, without-unlink, find_key-All}
use l.LinkedList.{
  LinkedList, add, has, remove, remove_each, remove_before, remove_all, before, get, get_loop,
}
use l.LinkedList.Linked.{IsLinked, add_new, add_old, remove_each_front}

module _ {T : Type 0} (key : T → String) where
  -- The first value with the key.
  unfoldable pub first_with : String → List T → Option T
  first_with k [] = none
  first_with k (t ∷ ts) = if key t == k then some t else first_with k ts

  first_with-values :
      (k : String) (xs : List (Elem T))
      → first_with k (values xs) ≡ elim (find_key key k xs) [ none ↦ none | some e ↦ some e.value ]
  unfolding first_with find_key
  first_with-values k [] = refl
  first_with-values k (x ∷ xs) = ground (arith, first_with-values k xs)

  -- `Has` is a search of the list.
  pub has-first_with :
      (t : T) (lst : LinkedList T)
      → IsLinked key lst
      → has key t lst ≡ first_with (key t) (values lst.list)
  unfolding has
  has-first_with t lst i = ground (arith, i.agrees (key t), first_with-values (key t) lst.list)

  -- `Add` appends a value to a linked list if its key is new, and changes no value if not.
  pub values-add :
      (t : T) (lst : LinkedList T)
      → IsLinked key lst
      → values (add key t lst).list ≡ elim (first_with (key t) (values lst.list)) [
        | some _ ↦ values lst.list
        | none ↦ values lst.list ++ (t ∷ [])
      ]
  values-add t lst i = elim (Option-cases (lookup (key t) lst.mapping)) [
    | inl new ↦
        rw (add_new key t lst new, first_with-values (key t) lst.list, sym (i.agrees (key t)) ∙ new)
          (map-append _ lst.list _)
    | inr (e, old) ↦
        rw (
          add_old key t e lst old,
          first_with-values (key t) lst.list,
          sym (i.agrees (key t)) ∙ old,
        )
  ]

  without_first : (k : String) (ts : List T) → first_with k ts ≡ none → without key k ts ≡ ts
  unfolding without first_with
  without_first k [] h = refl
  without_first k (t ∷ ts) h = ground (arith, without_first k ts)

  -- `Remove` takes the value with the key out of a linked list and leaves the others in order.
  pub values-remove :
      (t : T) (lst : LinkedList T)
      → IsLinked key lst
      → values (remove key t lst).list ≡ without key (key t) (values lst.list)
  unfolding remove
  values-remove t lst i = elim (Option-cases (lookup (key t) lst.mapping)) [
    | inl missing ↦
        rw (missing, remove)
          (sym (
            without_first (key t) (values lst.list)
              (ground (arith, first_with-values (key t) lst.list, i.agrees (key t)))))
    | inr (e, found) ↦
        rw (found, remove)
          (without-unlink key (key t) e lst.list i.ids i.keys (sym (i.agrees (key t)) ∙ found))
  ]

  -- `RemoveAll` returns every value of a linked list in order, empties it and keeps it
  -- together, and never panics.
  pub remove_all_empties :
      (lst : LinkedList T)
      → IsLinked key lst
      → (lst' : LinkedList T) × (remove_all key lst ≡ some (lst', values lst.list))
        × IsLinked key lst'
        × (lst'.list ≡ [])
  unfolding remove_all
  remove_all_empties lst i =
      let (lst', done, linked, empty) =
        remove_each_front key lst.list [] lst i (sym (append-nil lst.list)) in
      (lst', rw (done, remove_all), linked, empty)

  -- The values in front of the first that is equal to `t`.
  module _ ⦃eq : Comparable T⦄ where
    abbrev Stops : T → List (Elem T) → Type 0
    Stops t [] = Unit {0}
    Stops t (x ∷ xs) = x.value ≡ t

    before_split :
        (t : T) (xs : List (Elem T))
        → (es rest : List (Elem T)) × (xs ≡ es ++ rest)
          × (before t xs ≡ values es)
          × All (λ e. e.value ≢ t) es
          × Stops t rest
    unfolding before
    before_split t [] = ([], [], refl, refl, tt, tt)
    before_split t (x ∷ xs) = elim (Bool-cases (x.value == t)) [
      | inl hit ↦ ([], x ∷ xs, refl, rw hit, tt, (==_iff x.value t).0 hit)
      | inr miss ↦
          let (es, rest, joined, shown, others, stop) = before_split t xs in
          (
            x ∷ es,
            rest,
            ap (◌∷◌ x) joined,
            rw miss (ap (◌∷◌ x.value) shown),
            ((λ h. cc ((==_iff x.value t).1 h)), others),
            stop,
          )
    ]

    -- What `RemoveBefore` leaves and returns: the values in front of the one that is stored under
    -- the key of `t`, and the list from that one on.
    pub record Cuts (stored : T) (lst : LinkedList T) (r : Option (LinkedList T × List T))
        : Type 0 where
      pub lst' : LinkedList T
      pub front : List T
      pub rest : List T
      pub returned : r ≡ some (lst', front)
      pub kept : values lst'.list ≡ stored ∷ rest
      pub joined : values lst.list ≡ front ++ (stored ∷ rest)
      pub linked : IsLinked key lst'

    cut_returned :
        (t : T) (e : Elem T) (lst lst' : LinkedList T) (front : List T)
        → lookup (key t) lst.mapping ≡ some e
        → before e.value lst.list ≡ front
        → remove_each key front lst ≡ some lst'
        → remove_before key t lst ≡ some (lst', front)
    unfolding remove_before
    cut_returned t e lst lst' front found shown done =
        rw (found, remove_before)
          (subst
            (λ (f : List T).
              ◌≡◌ {A = Option (LinkedList T × List T)}
                (elim (remove_each key f lst) [ none ↦ none | some l ↦ some (l, f) ])
                (some (lst', front)))
            (sym shown) (rw done))

    -- For a value whose key is stored in a linked list, `RemoveBefore` does not panic: it
    -- returns the values in front of the stored one in order, and leaves the list from that
    -- one on, together.
    pub remove_before-Cuts :
        (t : T) (e : Elem T) (lst : LinkedList T)
        → IsLinked key lst
        → lookup (key t) lst.mapping ≡ some e
        → Cuts e.value lst (remove_before key t lst)
    unfolding remove_before
    remove_before-Cuts t e lst i found =
        let (es, rest, joined, shown, others, stop) = before_split e.value lst.list in
        let (lst', done, linked, left) = remove_each_front key es rest lst i joined in
        let stored = stops_at e es rest lst i found joined others stop in
        record {
          lst' = lst';
          front = values es;
          rest = stored.0;
          returned = cut_returned t e lst lst' (values es) found shown done;
          kept = ap values left ∙ stored.1;
          joined = ap values joined ∙ map-append _ es rest ∙ ap (◌++◌ (values es)) stored.1;
          linked = linked;
        }
      where
        stops_at :
            (e : Elem T) (es rest : List (Elem T)) (lst : LinkedList T)
            → IsLinked key lst
            → lookup (key t) lst.mapping ≡ some e
            → lst.list ≡ es ++ rest
            → All (λ x. x.value ≢ e.value) es
            → Stops e.value rest
            → (ts : List T) × (values rest ≡ e.value ∷ ts)
        stops_at e es [] lst i found joined others stop = absurd (
            find_key-All key (λ x. x.value ≢ e.value) (key t) e es others
              (ap (find_key key (key t)) (sym (append-nil es))
                ∙ ap (find_key key (key t)) (sym joined)
                ∙ sym (i.agrees (key t))
                ∙ found)
              refl)
        stops_at e es (x ∷ rest) lst i found joined others stop =
            (values rest, ap (λ v. v ∷ values rest) stop)

module _ {T : Type 0} where
  get_loop-take :
      (n cnt : ℕ) (xs : List (Elem T)) → get_loop (suc n + cnt) cnt xs ≡ take (suc n) (values xs)
  unfolding get_loop take
  get_loop-take n cnt [] = refl
  get_loop-take zero cnt (x ∷ xs) = ground (arith)
  get_loop-take (suc n) cnt (x ∷ xs) = ground (arith, get_loop-take n (cnt + 1) xs)

  get_loop-all : (cnt : ℕ) (xs : List (Elem T)) → get_loop 0 cnt xs ≡ values xs
  unfolding get_loop
  get_loop-all cnt [] = refl
  get_loop-all cnt (x ∷ xs) = ground (arith, get_loop-all (cnt + 1) xs)

  -- `Get` returns the first `n` values, all that there are if there are fewer, and all if `n` is 0.
  pub get-take :
      (n : ℕ) (lst : LinkedList T)
      → get n lst ≡ (if eqb n 0 then values lst.list else take n (values lst.list))
  unfolding get
  get-take zero lst = get_loop-all 0 lst.list
  get-take (suc n) lst =
      let first : get_loop (suc n) 0 lst.list ≡ take (suc n) (values lst.list) =
        subst (λ (k : ℕ). get_loop k 0 lst.list ≡ take (suc n) (values lst.list)) (add-zero (suc n))
          (get_loop-take n 0 lst.list) in
      ground (arith, first)
