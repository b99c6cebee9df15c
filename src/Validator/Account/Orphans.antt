-- ===== src/Validator/Account/Orphans.antt =====
-- The orphans of an account: sorted by nonce, and handed back without a gap.
use l.Base.{
  ℕ, ◌+◌, ◌≤◌, ◌<◌, ◌^◌, ◌%◌, ◌≡◌, subst, inl, inr, Bool, true, false, Option, none, some, zero,
  suc, map, refl, ap, sym, ◌∙◌, if◌then◌else◌, List, [], ◌∷◌, arith, length, All, eqb, ltb,
  Bool-cases, Option-cases,
}
use l.Transaction.{Transaction}
use l.Elements.{insert_back}
use l.Validator.Account.{insert_orphan, take_orphans}

-- No nonce falls along the list.
abbrev pub IsSorted : List Transaction → Type 0
IsSorted [] = Unit {0}
IsSorted (x ∷ xs) = All (λ y. x.nonce ≤ y.nonce) xs × IsSorted xs

abbrev earlier : Transaction → Transaction → Bool
earlier tx o = ltb o.nonce tx.nonce

put_All :
    (P : Transaction → Type 0) (tx : Transaction) (os placed : List Transaction)
    → insert_back (earlier tx) tx os ≡ some placed
    → P tx
    → All P os
    → All P placed
unfolding insert_back
put_All P tx [] placed h p a = cc
put_All P tx (x ∷ xs) placed h p a = elim (Option-cases (insert_back (earlier tx) tx xs)) [
  | inr (rest, later) ↦
      let shape : x ∷ rest ≡ placed = ground arith in
      subst (All P) shape (a.0, put_All P tx xs rest later p a.1)
  | inl none_later ↦
      let shape : x ∷ tx ∷ xs ≡ placed = ground arith in subst (All P) shape (a.0, (p, a.1))
]

-- Where no orphan is earlier, all are at least as late.
none-earlier :
    (tx : Transaction) (os : List Transaction)
    → insert_back (earlier tx) tx os ≡ none
    → All (λ o. tx.nonce ≤ o.nonce) os
unfolding insert_back
none-earlier tx [] h = tt
none-earlier tx (x ∷ xs) h = elim (Option-cases (insert_back (earlier tx) tx xs)) [
  | inr (rest, later) ↦ cc later
  | inl none_later ↦ (ground arith, none-earlier tx xs none_later)
]

-- An orphan that goes behind another is at least as late as any bound from below.
bound :
    (tx : Transaction) (m : ℕ) (os placed : List Transaction)
    → insert_back (earlier tx) tx os ≡ some placed
    → All (λ o. m ≤ o.nonce) os
    → m ≤ tx.nonce
unfolding insert_back
bound tx m [] placed h a = cc
bound tx m (x ∷ xs) placed h a = elim (Option-cases (insert_back (earlier tx) tx xs)) [
  | inr (rest, later) ↦ bound tx m xs rest later a.1
  | inl none_later ↦ ground (arith, a.0)
]

put-IsSorted :
    (tx : Transaction) (os placed : List Transaction)
    → insert_back (earlier tx) tx os ≡ some placed
    → IsSorted os
    → IsSorted placed
unfolding insert_back
put-IsSorted tx [] placed h s = cc
put-IsSorted tx (x ∷ xs) placed h s = elim (Option-cases (insert_back (earlier tx) tx xs)) [
  | inr (rest, later) ↦
      let shape : x ∷ rest ≡ placed = ground arith in
      subst IsSorted shape (
        put_All (λ o. x.nonce ≤ o.nonce) tx xs rest later (bound tx x.nonce xs rest later s.0) s.0,
        put-IsSorted tx xs rest later s.1,
      )
  | inl none_later ↦
      let shape : x ∷ tx ∷ xs ≡ placed = ground arith in
      let early : x.nonce < tx.nonce = ground arith in
      subst IsSorted shape ((omega arith, s.0), (none-earlier tx xs none_later, s.1))
]

-- A new orphan keeps sorted orphans sorted.
pub insert_orphan-IsSorted :
    (tx : Transaction) (os : List Transaction) → IsSorted os → IsSorted (insert_orphan tx os)
unfolding insert_orphan
insert_orphan-IsSorted tx os s = elim (Option-cases (insert_back (earlier tx) tx os)) [
  | inr (placed, found) ↦ rw (found, insert_orphan) (put-IsSorted tx os placed found s)
  | inl none_found ↦ rw (none_found, insert_orphan) (none-earlier tx os none_found, s)
]

-- The nonces `n`, `n + 1` and so on.
abbrev pub Follow : ℕ → List Transaction → Type 0
Follow n [] = Unit {0}
Follow n (tx ∷ txs) = (tx.nonce ≡ n) × Follow (n + 1) txs

All-later :
    (n : ℕ) (tx : Transaction) (txs : List Transaction)
    → n < tx.nonce
    → All (λ y. tx.nonce ≤ y.nonce) txs
    → All (λ o. n < o.nonce) txs
All-later n tx [] h a = tt
All-later n tx (y ∷ ys) h a = (omega (arith, a.0), All-later n tx ys h a.1)

-- The first orphan with this nonce, the first ones of `k` nonces from `n` on, and those behind `n`.
unfoldable pub first_with : ℕ → List Transaction → Option Transaction
first_with n [] = none
first_with n (o ∷ os) = let rest = first_with n os in if eqb o.nonce n then some o else rest

unfoldable pub firsts : ℕ → ℕ → List Transaction → List (Option Transaction)
unfolding first_with
firsts n zero os = []
firsts n (suc k) os = first_with n os ∷ firsts (n + 1) k os

unfoldable pub behind : ℕ → List Transaction → List Transaction
behind n [] = []
behind n (o ∷ os) = let rest = behind n os in if ltb n o.nonce then o ∷ rest else rest

firsts_skip :
    (n k : ℕ) (x : Transaction) (os : List Transaction)
    → x.nonce < n
    → firsts n k (x ∷ os) ≡ firsts n k os
unfolding firsts first_with
firsts_skip n zero x os h = refl
firsts_skip n (suc k) x os h =
    let skips : eqb x.nonce n ≡ false = ground arith in
    rw skips (ap (λ r. first_with n os ∷ r) (firsts_skip (n + 1) k x os (omega arith)))

all_behind :
    (n : ℕ) (os : List Transaction)
    → All (λ o. n < o.nonce) os
    → (first_with n os ≡ none) × (behind n os ≡ os)
unfolding first_with behind
all_behind n [] h = (refl, refl)
all_behind n (x ∷ xs) h =
    let (none_there, all) = all_behind n xs h.1 in
    let apart : eqb x.nonce n ≡ false = ground (arith, h.0) in
    let later : ltb n x.nonce ≡ true = ground (arith, h.0) in
    (rw apart none_there, rw later (ap (λ r. x ∷ r) all))

not_behind :
    (n : ℕ) (x : Transaction) (os : List Transaction)
    → x.nonce < n
    → (first_with n (x ∷ os) ≡ first_with n os) × (behind n (x ∷ os) ≡ behind n os)
unfolding first_with behind
not_behind n x os h = (ground arith, ground arith)

-- What is taken from the orphans `os` at the nonce `n`, and what is left.
pub record Taken (n : ℕ) (os taken left : List Transaction) : Type 0 where
  pub follow : Follow n taken
  pub taken_first : map some taken ≡ firsts n (length taken) os
  pub none_next : first_with (n + length taken) os ≡ none
  pub left_behind : left ≡ behind (n + length taken) os
  pub left_sorted : IsSorted left

Taken-old :
    (n : ℕ) (x : Transaction) (os taken left : List Transaction)
    → x.nonce < n
    → Taken n os taken left
    → Taken n (x ∷ os) taken left
Taken-old n x os taken left old t =
    let (first, later) = not_behind (n + length taken) x os (omega (arith, old)) in
    record {
      follow = t.follow;
      taken_first = t.taken_first ∙ sym (firsts_skip n (length taken) x os old);
      none_next = first ∙ t.none_next;
      left_behind = t.left_behind ∙ sym later;
      left_sorted = t.left_sorted;
    }

Taken-here :
    (n : ℕ) (x : Transaction) (os taken left : List Transaction)
    → x.nonce ≡ n
    → Taken (n + 1) os taken left
    → Taken n (x ∷ os) (x ∷ taken) left
unfolding firsts first_with
Taken-here n x os taken left here t =
    let before = Taken-old (n + 1) x os taken left (omega (arith, here)) t in
    let hit : eqb x.nonce n ≡ true = ground (arith, here) in
    let shift : n + 1 + length taken ≡ n + length (x ∷ taken) = omega arith in
    record {
      follow = (here, t.follow);
      taken_first = rw hit (ap (λ r. some x ∷ r) before.taken_first);
      none_next = subst (λ m. first_with m (x ∷ os) ≡ none) shift before.none_next;
      left_behind = subst (λ m. left ≡ behind m (x ∷ os)) shift before.left_behind;
      left_sorted = t.left_sorted;
    }

Taken-gap :
    (n : ℕ) (x : Transaction) (os : List Transaction)
    → n < x.nonce
    → IsSorted (x ∷ os)
    → Taken n (x ∷ os) [] (x ∷ os)
unfolding firsts
Taken-gap n x os gap s =
    let (none_there, all) =
      all_behind (n + 0) (x ∷ os)
        (omega (arith, gap), All-later (n + 0) x os (omega (arith, gap)) s.0) in
    record {
      follow = tt;
      taken_first = refl;
      none_next = none_there;
      left_behind = sym all;
      left_sorted = s;
    }

-- From sorted orphans, below the end of the nonces, come those that follow the nonce without a
-- gap, of each nonce the first one, as far as there are any: none has the nonce expected next. All that
-- come later than that are left, sorted.
pub take_orphans-Taken :
    (n : ℕ) (os : List Transaction)
    → n + length os < 2 ^ 32
    → IsSorted os
    → Taken n os (take_orphans n os).0 (take_orphans n os).1
unfolding take_orphans
take_orphans-Taken n [] small s =
    unfold firsts first_with behind in
    record {
      follow = tt;
      taken_first = refl;
      none_next = refl;
      left_behind = refl;
      left_sorted = tt;
    }
take_orphans-Taken n (x ∷ xs) small s = elim (Bool-cases (ltb x.nonce n)) [
  | inl old ↦
      rw old (Taken-old n x xs _ _ (ground arith) (take_orphans-Taken n xs (omega arith) s.1))
  | inr new ↦ elim (Bool-cases (eqb x.nonce n)) [
    | inl here ↦
        let word : (n + 1) % 2 ^ 32 ≡ n + 1 = omega arith in
        rw (new, here, word)
          (Taken-here n x xs _ _ (ground arith) (take_orphans-Taken (n + 1) xs (omega arith) s.1))
    | inr gap ↦ rw (new, gap) (Taken-gap n x xs (ground arith) s)
  ]
]
