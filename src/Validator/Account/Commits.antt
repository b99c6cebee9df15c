-- ===== src/Validator/Account/Commits.antt =====
-- What `committedAndRemoveTransaction` does with a transaction in the pool.
use l.Base.{
  ℕ, suc, ◌+◌, ◌≡◌, ◌≢◌, refl, ap, ◌∙◌, subst, inl, inr, String, none, some, List, [], ◌∷◌, arith,
  lookup, delete, length, All, eqb, eqb_iff, string_eq, Bool-cases, Option-cases,
}
use l.Transaction.{Transaction}
use l.Elements.{Elem, unlink, UniqueIds, unlink-UniqueIds}
use l.Validator.Account.{Account, done, panic, prev, remove_previous, committed_and_remove}

-- An element that is not in the list has none in front of it.
pub prev_absent :
    (e : Elem Transaction) (l : List (Elem Transaction))
    → All (λ y. y.id ≢ e.id) l
    → prev e l ≡ none
unfolding prev
prev_absent e [] a = refl
prev_absent e (x ∷ []) a = refl
prev_absent e (x ∷ y ∷ ys) a = ground (arith, a.1.0, eqb_iff y.id e.id, prev_absent e (y ∷ ys) a.1)

pub unlink_absent :
    (e : Elem Transaction) (l : List (Elem Transaction))
    → UniqueIds l
    → All (λ y. y.id ≢ e.id) (unlink e l)
unfolding unlink
unlink_absent e [] u = tt
unlink_absent e (x ∷ xs) u = elim (Bool-cases (eqb x.id e.id)) [
  | inl hit ↦ rw hit (subst (λ n. All (λ y. y.id ≢ n) xs) ((eqb_iff x.id e.id).0 hit) u.0)
  | inr miss ↦ rw miss ((λ same. cc ((eqb_iff x.id e.id).1 same)), unlink_absent e xs u.1)
]

-- One round over a predecessor, or two, end in a nil dereference.
remove_previous_panics :
    (hash : Transaction → String) (fuel : ℕ) (p : Elem Transaction) (va : Account)
    → UniqueIds va.txs_list
    → remove_previous hash (suc (suc fuel)) (some p) va ≡ panic
unfolding remove_previous
remove_previous_panics hash fuel p va u = elim (Option-cases (prev p va.txs_list)) [
  | inl front ↦ rw (front, remove_previous)
  | inr (q, found) ↦
      let gone = prev_absent q (unlink q va.txs_list) (unlink_absent q va.txs_list u) in
      ground (arith, found, gone)
]

prev_nonempty :
    (e p : Elem Transaction) (l : List (Elem Transaction))
    → prev e l ≡ some p
    → (n : ℕ) × (length l ≡ suc n)
unfolding prev
prev_nonempty e p [] h = cc
prev_nonempty e p (x ∷ xs) h = (length xs, refl)

-- Of a transaction that the pool holds, the method takes the element out if no other stands in
-- front of it; if one does, it dereferences nil.
pub committed_and_remove_lem :
    (hash : Transaction → String) (tx : Transaction) (e : Elem Transaction) (va : Account)
    → UniqueIds va.txs_list
    → lookup (hash tx) va.txs_map ≡ some e
    → committed_and_remove hash tx va ≡ elim (prev e va.txs_list) [
      | some _ ↦ panic
      | none ↦
          done
            (record va { txs_list = unlink e va.txs_list; txs_map = delete (hash tx) va.txs_map })
    ]
committed_and_remove_lem hash tx e va u found = elim (Option-cases (prev e va.txs_list)) [
  | inl front ↦ rw front (at_front hash tx e va found front)
  | inr (p, before) ↦ rw before (behind hash tx e p va u found before)
]
  where
    at_front :
        (hash : Transaction → String) (tx : Transaction) (e : Elem Transaction) (va : Account)
        → lookup (hash tx) va.txs_map ≡ some e
        → prev e va.txs_list ≡ none
        → committed_and_remove hash tx va
          ≡ done
              (record va { txs_list = unlink e va.txs_list; txs_map = delete (hash tx) va.txs_map })
    at_front hash tx e va found front = unfold committed_and_remove remove_previous in ground arith

    behind :
        (hash : Transaction → String) (tx : Transaction) (e p : Elem Transaction) (va : Account)
        → UniqueIds va.txs_list
        → lookup (hash tx) va.txs_map ≡ some e
        → prev e va.txs_list ≡ some p
        → committed_and_remove hash tx va ≡ panic
    behind hash tx e p va u found before =
        let (n, size) = prev_nonempty e p va.txs_list before in
        let after : Account = record va {
          txs_list = unlink e va.txs_list;
          txs_map = delete (hash tx) va.txs_map;
        } in
        let fuel : length va.txs_list + 1 ≡ suc (suc n) = omega (arith, size) in
        let panics : remove_previous hash (length va.txs_list + 1) (some p) after ≡ panic =
          ap (λ k. remove_previous hash k (some p) after) fuel
          ∙ remove_previous_panics hash n p after (unlink-UniqueIds e va.txs_list u) in
        unfold committed_and_remove in ground (arith, panics)
