-- ===== src/Validator/Grouping/Fetches.antt =====
-- What consensus gets for a block.
use mathlib.Core.List.{Perm, append-nil}
use mathlib.Core.List.Perm
use l.Base.{
  ℕ, zero, suc, ◌+◌, ◌≤◌, ◌<◌, ◌≡◌, refl, ap, sym, ◌∙◌, subst, String, some, List, [], ◌∷◌, ◌++◌,
  Map, delete, length, string_eq, arith, All, All-append, length-append,
}
use l.Transaction.{Transaction}
use l.Validator.Accounts.{Validator}
use l.Validator.Grouping.{
  nothing_fetched, iter_accounts, all_groups, own_groups, empties, fill,
  fetch_grouping_txs_in_tx_pool,
}
use l.Validator.Grouping.Parts.{Groups, flat, flat-append, flat-delete, length-delete}
use l.Validator.Grouping.Groups.{
  IsGroup, AllGroups, AllGroups-own, AllGroups-delete, Kept, iter_accounts-Kept,
}

abbrev pub SomeGroup : ℕ → List Transaction → Type 0
SomeGroup max_size g = (chain : String) × IsGroup max_size chain g

empties-SomeGroup : (max_size n : ℕ) → All (SomeGroup max_size) (empties n)
unfolding empties
empties-SomeGroup max_size zero = tt
empties-SomeGroup max_size (suc n) = (("", (tt, omega arith)), empties-SomeGroup max_size n)

length-empties : (n : ℕ) → length (empties n) ≡ n
unfolding empties
length-empties zero = refl
length-empties (suc n) = omega (arith, length-empties n)

flat-empties : (n : ℕ) → flat (empties n) ≡ []
unfolding empties
flat-empties zero = refl
flat-empties (suc n) = flat-empties n

-- The slice has room: the rest of it is empty groups.
fill_rest :
    (n : ℕ) (gs : Groups)
    → length gs ≤ n
    → (k : ℕ) × (fill n gs ≡ some (gs ++ empties k)) × (length gs + k ≡ n)
unfolding fill
fill_rest n [] h = (n, refl, omega arith)
fill_rest zero (g ∷ gs) h = absurd (omega (arith, h))
fill_rest (suc n) (g ∷ gs) h =
    let (k, filled, all) = fill_rest n gs (omega (arith, h)) in
    (k, rw filled refl, omega (arith, all))

fill_more :
    (n : ℕ) (g : List Transaction) (gs rest : Groups)
    → fill n gs ≡ some rest
    → fill (n + 1) (g ∷ gs) ≡ some (g ∷ rest)
unfolding fill
fill_more n g gs rest h =
    let one_more : suc n ≡ n + 1 = omega arith in
    subst (λ m. fill m (g ∷ gs) ≡ some (g ∷ rest)) one_more (rw h refl)

SomeGroup-of :
    (max_size : ℕ) (chain : String) (gs : Groups)
    → All (IsGroup max_size chain) gs
    → All (SomeGroup max_size) gs
SomeGroup-of max_size chain [] h = tt
SomeGroup-of max_size chain (g ∷ gs) (h, hs) = ((chain, h), SomeGroup-of max_size chain gs hs)

SomeGroup-groups :
    (max_size : ℕ) (m : Map String Groups)
    → AllGroups max_size m
    → All (SomeGroup max_size) (all_groups m)
unfolding all_groups AllGroups
SomeGroup-groups max_size [] h = tt
SomeGroup-groups max_size ((chain, gs) ∷ m) (h, hm) =
    All-append (SomeGroup max_size) gs (all_groups m) (SomeGroup-of max_size chain gs h)
      (SomeGroup-groups max_size m hm)

nothing_fetched-Kept : (grouping_num max_size : ℕ) → Kept grouping_num max_size nothing_fetched
unfolding all_groups AllGroups
nothing_fetched-Kept grouping_num max_size = record {
  distinct = tt;
  sound = tt;
  counted = omega arith;
  room = omega arith;
  same = Perm.refl [];
}

-- With a size above zero the call never runs out of its slice: it gives the list of all that it has
-- fetched and exactly as many groups as it was asked for. Each group goes to one chain and is not
-- larger than it may be, and the groups together hold what was fetched, each transaction as often.
pub fetch_grouping_txs_in_tx_pool_lem :
    (hash : Transaction → String) (own : String) (grouping_num max_size : ℕ) (vr : Validator)
    → 0 < max_size
    → (fetched : List Transaction) × (gs : Groups) × ((fetch_grouping_txs_in_tx_pool hash own
          grouping_num max_size vr).1
        ≡ some (fetched ∷ gs))
      × (length gs ≡ grouping_num)
      × All (SomeGroup max_size) gs
      × Perm fetched (flat gs)
unfolding fetch_grouping_txs_in_tx_pool
fetch_grouping_txs_in_tx_pool_lem hash own grouping_num max_size vr some_room =
    let f = (iter_accounts hash grouping_num max_size vr.accounts nothing_fetched).1 in
    let kept =
      iter_accounts-Kept grouping_num max_size some_room hash vr.accounts nothing_fetched
        (nothing_fetched-Kept grouping_num max_size) in
    let ours = own_groups own f.groups in
    let others = all_groups (delete own f.groups) in
    let (k, filled, all) = fill_rest grouping_num (ours ++ others) (
      omega
        (arith, kept.room, length-delete own f.groups kept.distinct, length-append ours others)) in
    (
      f.all,
      (ours ++ others) ++ empties k,
      fill_more grouping_num f.all (ours ++ others) _ filled,
      omega (arith, all, length-append (ours ++ others) (empties k), length-empties k),
      All-append (SomeGroup max_size) (ours ++ others) (empties k)
          (All-append (SomeGroup max_size) ours others
            (SomeGroup-of max_size own ours (AllGroups-own max_size own f.groups kept.sound))
            (SomeGroup-groups max_size (delete own f.groups)
              (AllGroups-delete max_size own f.groups kept.sound)))
          (empties-SomeGroup max_size k),
      subst (Perm f.all)
          (sym (
            flat-append (ours ++ others) (empties k)
            ∙ ap (λ xs. flat (ours ++ others) ++ xs) (flat-empties k)
            ∙ append-nil _))
          (Perm.trans kept.same (Perm.symm (flat-delete own f.groups kept.distinct))),
    )
