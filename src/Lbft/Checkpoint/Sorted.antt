-- ===== src/Lbft/Checkpoint/Sorted.antt =====
-- The sorted keys of a map: ascending, and neither more nor fewer.
use l.Base.{
  ℕ, ◌<◌, ◌≡◌, ◌≢◌, refl, sym, subst, inl, inr, none, List, [], ◌∷◌, arith, Map, lookup, All, leb,
  eqb, nat_eq, Bool-cases, IsDistinct, eqb_iff, All-map,
}
use l.Lbft.Checkpoint.{insert_key, sorted_keys}

abbrev pub Ascending : List ℕ → Type 0
Ascending [] = Unit {0}
Ascending (x ∷ xs) = All (λ y. x < y) xs × Ascending xs

pub insert_key-All :
    (P : ℕ → Type 0) (k : ℕ) (xs : List ℕ) → P k → All P xs → All P (insert_key k xs)
unfolding insert_key
insert_key-All P k [] p a = (p, tt)
insert_key-All P k (x ∷ xs) p a = elim (Bool-cases (leb k x)) [
  | inl le ↦ rw le (p, (a.0, a.1))
  | inr gt ↦ rw gt (a.0, insert_key-All P k xs p a.1)
]

All-insert_key : (P : ℕ → Type 0) (k : ℕ) (xs : List ℕ) → All P (insert_key k xs) → P k × All P xs
unfolding insert_key
All-insert_key P k [] a = a
All-insert_key P k (x ∷ xs) a = elim (Bool-cases (leb k x)) [
  | inl le ↦ let b : All P (k ∷ x ∷ xs) = rw le at a in b
  | inr gt ↦
      let b : All P (x ∷ insert_key k xs) = rw gt at a in
      let (p, rest) = All-insert_key P k xs b.1 in (p, (b.0, rest))
]

pub insert_key-Ascending :
    (k : ℕ) (xs : List ℕ) → All (λ y. y ≢ k) xs → Ascending xs → Ascending (insert_key k xs)
unfolding insert_key
insert_key-Ascending k [] n a = (tt, tt)
insert_key-Ascending k (x ∷ xs) n a = elim (Bool-cases (leb k x)) [
  | inl le ↦
      let below : k < x = ground (arith, n.0) in
      rw le ((below, All-map (λ y h. lt_trans k x y below h) xs a.0), a)
  | inr gt ↦
      rw gt (insert_key-All (λ y. x < y) k xs (ground arith) a.0, insert_key-Ascending k xs n.1 a.1)
]
  where
    lt_trans : (k x y : ℕ) → k < x → x < y → k < y
    lt_trans k x y h i = omega arith

module _ {B : Type 0} where
  -- Every key that is listed is in the map.
  pub sorted_keys-present : (m : Map ℕ B) → All (λ k. lookup k m ≢ none) (sorted_keys m)
  unfolding sorted_keys lookup
  sorted_keys-present [] = tt
  sorted_keys-present ((k, b) ∷ m) =
      insert_key-All _ k (sorted_keys m) (ground (arith, eqb_iff k k))
        (All-map (λ j h. still k b m j h) (sorted_keys m) (sorted_keys-present m))
    where
      still :
          (k : ℕ) (b : B) (m : Map ℕ B) (j : ℕ) → lookup j m ≢ none → lookup j ((k, b) ∷ m) ≢ none
      still k b m j h = elim (Bool-cases (eqb k j)) [
        | inl same ↦ rw same (λ e. cc)
        | inr other ↦ rw other h
      ]

  -- A key that is not listed is not in the map.
  pub sorted_keys_complete :
      (j : ℕ) (m : Map ℕ B) → All (λ k. k ≢ j) (sorted_keys m) → lookup j m ≡ none
  unfolding sorted_keys lookup
  sorted_keys_complete j [] a = refl
  sorted_keys_complete j ((k, b) ∷ m) a =
      let (other, rest) = All-insert_key (λ i. i ≢ j) k (sorted_keys m) a in
      ground (arith, other, sorted_keys_complete j m rest)

  unlisted : (k : ℕ) (m : Map ℕ B) → lookup k m ≡ none → All (λ j. j ≢ k) (sorted_keys m)
  unlisted k m h =
      All-map (λ j present same. present (subst (λ i. lookup i m ≡ none) (sym same) h))
        (sorted_keys m) (sorted_keys-present m)

  pub sorted_keys-Ascending : (m : Map ℕ B) → IsDistinct m → Ascending (sorted_keys m)
  unfolding sorted_keys
  sorted_keys-Ascending [] d = tt
  sorted_keys-Ascending ((k, b) ∷ m) d =
      insert_key-Ascending k (sorted_keys m) (unlisted k m d.0) (sorted_keys-Ascending m d.1)
