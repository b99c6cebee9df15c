-- ===== src/Validator/Grouping/Parts.antt =====
-- The groups of all chains in a row, when those of one chain change or go.
use mathlib.Core.List.{Perm, perm_middle, append-nil, append_assoc}
use mathlib.Core.List.Perm
use l.Base.{
  ◌+◌, ◌≡◌, refl, ap, sym, ◌∙◌, subst, Bool, true, false, String, none, some, List, [], ◌∷◌, ◌++◌,
  Map, lookup, insert, delete, length, if◌then◌else◌, string_eq, ◌==◌, ==_iff, arith, IsDistinct,
  length-append,
}
use l.Transaction.{Transaction}
use l.Validator.Grouping.{all_groups, own_groups, groups_of}

abbrev pub Groups : Type 0
Groups = List (List Transaction)

-- The transactions of the groups.
abbrev pub flat : Groups → List Transaction
flat [] = []
flat (g ∷ gs) = g ++ flat gs

pub flat-append : (xs ys : Groups) → flat (xs ++ ys) ≡ flat xs ++ flat ys
flat-append [] ys = refl
flat-append (x ∷ xs) ys =
    ap (λ zs. x ++ zs) (flat-append xs ys) ∙ sym (append_assoc x (flat xs) (flat ys))

-- The groups without those of a chain, and these.
pub length-insert :
    (k : String) (gs : Groups) (m : Map String Groups)
    → length (all_groups (insert k gs m)) + length (own_groups k m)
      ≡ length (all_groups m) + length gs
unfolding all_groups insert lookup
length-insert k gs [] = omega (arith, length-append gs [])
length-insert k gs ((j, hs) ∷ m) = ground (
  arith,
  length-insert k gs m,
  length-append gs (all_groups m),
  length-append hs (all_groups m),
  length-append hs (all_groups (insert k gs m)),
)

-- Two stretches change places.
swapped : (xs ys zs : List Transaction) → Perm (xs ++ (ys ++ zs)) (ys ++ (xs ++ zs))
swapped [] ys zs = Perm.refl _
swapped (x ∷ xs) ys zs =
    Perm.trans (Perm.cons x (swapped xs ys zs)) (Perm.symm (perm_middle ys (xs ++ zs)))

insert_step :
    (at : Bool) (k j : String) (tx : Transaction) (gs hs : Groups) (m : Map String Groups)
    → Perm (flat gs) (tx ∷ flat (groups_of (if at then some hs else lookup k m)))
    → (Perm (flat gs) (tx ∷ flat (own_groups k m))
        → Perm (flat (all_groups (insert k gs m))) (tx ∷ flat (all_groups m)))
    → Perm
        (flat (all_groups (if at then (k, gs) ∷ m else (j, hs) ∷ insert k gs m)))
        (tx ∷ flat (hs ++ all_groups m))
unfolding all_groups
insert_step true k j tx gs hs m p ih =
    subst (λ xs. Perm xs (tx ∷ flat (hs ++ all_groups m))) (sym (flat-append gs (all_groups m)))
      (subst (λ xs. Perm (flat gs ++ flat (all_groups m)) (tx ∷ xs))
        (sym (flat-append hs (all_groups m))) (Perm.append_right (flat (all_groups m)) p))
insert_step false k j tx gs hs m p ih =
    subst (λ xs. Perm xs (tx ∷ flat (hs ++ all_groups m)))
      (sym (flat-append hs (all_groups (insert k gs m))))
      (subst (λ xs. Perm (flat hs ++ flat (all_groups (insert k gs m))) (tx ∷ xs))
        (sym (flat-append hs (all_groups m)))
        (Perm.trans (Perm.append_left (flat hs) (ih p))
          (perm_middle (flat hs) (flat (all_groups m)))))

-- One transaction more in the groups of a chain is one more in all.
pub flat-insert :
    (k : String) (tx : Transaction) (gs : Groups) (m : Map String Groups)
    → Perm (flat gs) (tx ∷ flat (own_groups k m))
    → Perm (flat (all_groups (insert k gs m))) (tx ∷ flat (all_groups m))
unfolding all_groups insert lookup
flat-insert k tx gs [] p = subst (λ xs. Perm xs (tx ∷ [])) (ap flat (sym (append-nil gs))) p
flat-insert k tx gs ((j, hs) ∷ m) p = insert_step (j == k) k j tx gs hs m p (flat-insert k tx gs m)

delete_absent : (k : String) (m : Map String Groups) → lookup k m ≡ none → delete k m ≡ m
unfolding delete lookup
delete_absent k [] h = refl
delete_absent k ((j, hs) ∷ m) h = ground (arith, delete_absent k m)

delete_step :
    (at : Bool) (k j : String) (hs : Groups) (m : Map String Groups)
    → (at ≡ true → lookup k m ≡ none)
    → Perm (flat (own_groups k m ++ all_groups (delete k m))) (flat (all_groups m))
    → Perm
        (flat (
          groups_of (if at then some hs else lookup k m)
          ++ all_groups (if at then delete k m else (j, hs) ∷ delete k m)))
        (flat (hs ++ all_groups m))
unfolding all_groups
delete_step true k j hs m once ih = rw (delete_absent k m (once refl)) (Perm.refl _)
delete_step false k j hs m once ih =
    subst (λ xs. Perm xs (flat (hs ++ all_groups m)))
      (sym (flat-append (own_groups k m) (hs ++ all_groups (delete k m))))
      (subst (λ xs. Perm (flat (own_groups k m) ++ xs) (flat (hs ++ all_groups m)))
        (sym (flat-append hs (all_groups (delete k m))))
        (subst
          (λ xs. Perm (flat (own_groups k m) ++ (flat hs ++ flat (all_groups (delete k m)))) xs)
          (sym (flat-append hs (all_groups m)))
          (Perm.trans (swapped (flat (own_groups k m)) (flat hs) (flat (all_groups (delete k m)))) (
            Perm.append_left (flat hs) (
              subst (λ xs. Perm xs (flat (all_groups m)))
                (flat-append (own_groups k m) (all_groups (delete k m))) ih)))))

-- The groups of a chain in front, and the others behind, hold the same transactions.
pub flat-delete :
    (k : String) (m : Map String Groups)
    → IsDistinct m
    → Perm (flat (own_groups k m ++ all_groups (delete k m))) (flat (all_groups m))
unfolding all_groups delete lookup
flat-delete k [] d = Perm.refl []
flat-delete k ((j, hs) ∷ m) (fresh, d) =
    delete_step (j == k) k j hs m
      (λ same. subst (λ i. lookup i m ≡ none) ((==_iff j k).0 same) fresh) (flat-delete k m d)

pub length-delete :
    (k : String) (m : Map String Groups)
    → IsDistinct m
    → length (own_groups k m) + length (all_groups (delete k m)) ≡ length (all_groups m)
unfolding all_groups delete lookup
length-delete k [] d = omega arith
length-delete k ((j, hs) ∷ m) (fresh, d) = ground (
  arith,
  ==_iff j k,
  length-delete k m d,
  delete_absent k m,
  length-append hs (all_groups m),
  length-append hs (all_groups (delete k m)),
)
