-- ===== src/Validator/Grouping/Groups.antt =====
-- The groups that `FetchGroupingTxsInTxPool` hands over.
use mathlib.Core.List.{Perm, perm_middle, append-nil, append_assoc}
use mathlib.Core.List.Perm
use l.Base.{
  ℕ, ◌+◌, ◌*◌, ◌≤◌, ◌<◌, ◌≡◌, refl, sym, subst, Bool, String, List, [], ◌∷◌, ◌++◌, Map, lookup,
  insert, delete, length, ltb, leb, string_eq, ◌==◌, ==_iff, arith, Bool-cases, inl, inr,
  IsDistinct, insert-IsDistinct, All, All-append, All-insert, All-delete, length-append,
}
use l.Transaction.{Transaction}
use l.Elements.{Elem}
use l.Validator.Account.{Account}
use l.Validator.Grouping.{
  Fetched, counted_in, open_group, add_to_last, take_tx, pending, walk, iter_transaction,
  iter_accounts, all_groups, own_groups,
}
use l.Validator.Grouping.Parts.{Groups, flat, length-insert, flat-insert}

-- A group goes to one chain, and is not larger than it may be.
abbrev pub IsGroup : ℕ → String → List Transaction → Type 0
IsGroup max_size chain g = All (λ (tx : Transaction). tx.to_chain ≡ chain) g × (length g ≤ max_size)

unfoldable pub AllGroups : ℕ → Map String Groups → Type 0
AllGroups max_size m = All (λ (entry : String × Groups). All (IsGroup max_size entry.0) entry.1) m

-- What holds of the state of the iteration.
pub record Kept (grouping_num max_size : ℕ) (f : Fetched) : Type 0 where
  pub distinct : IsDistinct f.groups
  pub sound : AllGroups max_size f.groups
  pub counted : length (all_groups f.groups) ≤ f.grouping_size
  pub room : length (all_groups f.groups) ≤ grouping_num
  pub same : Perm f.all (flat (all_groups f.groups))

AllGroups-insert :
    (max_size : ℕ) (k : String) (gs : Groups) (m : Map String Groups)
    → AllGroups max_size m
    → All (IsGroup max_size k) gs
    → AllGroups max_size (insert k gs m)
unfolding AllGroups
AllGroups-insert max_size k gs m h g =
    All-insert (λ (entry : String × Groups). All (IsGroup max_size entry.0) entry.1) k gs m h g

pub AllGroups-delete :
    (max_size : ℕ) (k : String) (m : Map String Groups)
    → AllGroups max_size m
    → AllGroups max_size (delete k m)
unfolding AllGroups
AllGroups-delete max_size k m h =
    All-delete (λ (entry : String × Groups). All (IsGroup max_size entry.0) entry.1) k m h

pub AllGroups-own :
    (max_size : ℕ) (k : String) (m : Map String Groups)
    → AllGroups max_size m
    → All (IsGroup max_size k) (own_groups k m)
unfolding AllGroups lookup
AllGroups-own max_size k [] h = tt
AllGroups-own max_size k ((j, hs) ∷ m) (h, hm) = elim (Bool-cases (j == k)) [
  | inl same ↦ rw same (subst (λ i. All (IsGroup max_size i) hs) ((==_iff j k).0 same) h)
  | inr apart ↦ rw apart (AllGroups-own max_size k m hm)
]

module _ (grouping_num max_size : ℕ) (some_room : 0 < max_size) where
  -- A transaction more, in groups of its chain that are as good, and at most one more than there were.
  Kept-with :
      (tx : Transaction) (gs : Groups) (f : Fetched) (size : ℕ)
      → Kept grouping_num max_size f
      → All (IsGroup max_size tx.to_chain) gs
      → Perm (flat gs) (tx ∷ flat (own_groups tx.to_chain f.groups))
      → length (all_groups f.groups) + length gs ≤ length (own_groups tx.to_chain f.groups) + size
      → length (all_groups f.groups) + length gs
        ≤ length (own_groups tx.to_chain f.groups) + grouping_num
      → Kept grouping_num max_size
          (counted_in tx (insert tx.to_chain gs f.groups) (record f { grouping_size = size }))
  Kept-with tx gs f size k good perm counted room = record {
    distinct = insert-IsDistinct tx.to_chain gs f.groups k.distinct;
    sound = AllGroups-insert max_size tx.to_chain gs f.groups k.sound good;
    counted = omega (arith, length-insert tx.to_chain gs f.groups, counted);
    room = omega (arith, length-insert tx.to_chain gs f.groups, counted, room);
    same = Perm.trans (perm_middle f.all []) (
        Perm.trans
          (Perm.cons tx
            (subst (λ xs. Perm xs (flat (all_groups f.groups))) (sym (append-nil f.all)) k.same))
          (Perm.symm (flat-insert tx.to_chain tx gs f.groups perm)));
  }

  -- What the step keeps, whether the transaction is taken or refused.
  StepKept : Fetched × Bool → Type 0
  StepKept (f, taken) = Kept grouping_num max_size f

  open_group-Kept :
      (tx : Transaction) (gs : Groups) (f : Fetched)
      → own_groups tx.to_chain f.groups ≡ gs
      → Kept grouping_num max_size f
      → StepKept (open_group grouping_num tx gs f)
  unfolding open_group StepKept
  open_group-Kept tx gs f own k =
      let good = AllGroups-own max_size tx.to_chain f.groups k.sound in
      elim (Bool-cases (ltb grouping_num (f.grouping_size + 1))) [
        | inl full ↦ rw full (record {
          distinct = k.distinct;
          sound = k.sound;
          counted = omega (arith, k.counted);
          room = k.room;
          same = k.same;
        })
        | inr free ↦ rw free (
            Kept-with tx ((tx ∷ []) ∷ gs) f (f.grouping_size + 1) k
              (
                ((refl, tt), omega (arith, some_room)),
                subst (All (IsGroup max_size tx.to_chain)) own good,
              )
              (subst (λ hs. Perm (tx ∷ flat gs) (tx ∷ flat hs)) (sym own) (Perm.refl _))
              (ground (arith, k.counted, own)) (ground (arith, k.counted, own, free)))
      ]

  add_to_last-Kept :
      (tx : Transaction) (gs : Groups) (f : Fetched)
      → own_groups tx.to_chain f.groups ≡ gs
      → Kept grouping_num max_size f
      → StepKept (add_to_last grouping_num max_size tx gs f)
  unfolding add_to_last StepKept
  add_to_last-Kept tx [] f own k = open_group-Kept tx [] f own k
  add_to_last-Kept tx (g ∷ gs) f own k = elim (Bool-cases (leb max_size (length g))) [
    | inl full ↦ rw full (open_group-Kept tx (g ∷ gs) f own k)
    | inr free ↦
        let good : All (IsGroup max_size tx.to_chain) (g ∷ gs) =
          subst (All (IsGroup max_size tx.to_chain)) own
            (AllGroups-own max_size tx.to_chain f.groups k.sound) in
        rw free (
          Kept-with tx ((g ++ (tx ∷ [])) ∷ gs) f f.grouping_size k
            (
              (
                All-append (λ (t : Transaction). t.to_chain ≡ tx.to_chain) g (tx ∷ []) good.0.0
                    (refl, tt),
                ground (arith, length-append g (tx ∷ [])),
              ),
              good.1,
            )
            (subst (λ hs. Perm ((g ++ (tx ∷ [])) ++ flat gs) (tx ∷ flat hs)) (sym own)
              (subst (λ xs. Perm xs (tx ∷ (g ++ flat gs)))
                (sym (append_assoc g (tx ∷ []) (flat gs))) (perm_middle g (flat gs))))
            (ground (arith, k.counted, own)) (ground (arith, k.room, own)))
  ]

  take_tx-Kept :
      (tx : Transaction) (f : Fetched)
      → Kept grouping_num max_size f
      → StepKept (take_tx grouping_num max_size tx f)
  unfolding take_tx
  take_tx-Kept tx f k = add_to_last-Kept tx (own_groups tx.to_chain f.groups) f refl k

  module _ (hash : Transaction → String) where
    walk-Kept :
        (es : List (Elem Transaction)) (curr : String) (f : Fetched)
        → Kept grouping_num max_size f
        → Kept grouping_num max_size (walk hash grouping_num max_size es curr f).1
    unfolding walk StepKept
    walk-Kept [] curr f k = k
    walk-Kept (e ∷ es) curr f k = elim (Bool-cases (take_tx grouping_num max_size e.value f).1) [
      | inl taken ↦ rw taken (walk-Kept es (hash e.value) _ (take_tx-Kept e.value f k))
      | inr refused ↦ rw refused (take_tx-Kept e.value f k)
    ]

    pub iter_accounts-Kept :
        (accounts : Map String Account) (f : Fetched)
        → Kept grouping_num max_size f
        → Kept grouping_num max_size (iter_accounts hash grouping_num max_size accounts f).1
    unfolding iter_accounts iter_transaction
    iter_accounts-Kept [] f k = k
    iter_accounts-Kept ((sender, va) ∷ rest) f k =
        let f' = (walk hash grouping_num max_size (pending va) va.curr_tx_hash f).1 in
        let k' = walk-Kept (pending va) va.curr_tx_hash f k in
        elim (Bool-cases (ltb (max_size * grouping_num) f'.txs_cnt)) [
          | inl enough ↦ rw enough k'
          | inr more ↦ rw more (iter_accounts-Kept rest f' k')
        ]
