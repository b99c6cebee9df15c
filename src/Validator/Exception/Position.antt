-- ===== src/Validator/Exception/Position.antt =====
-- Where `checkExceptionTransaction` looks for the pooled transaction with the nonce of a new one.
use mathlib.Core.List.{reverse, reverse-cons}
use l.Base.{
  ℕ, ◌+◌, ◌-◌, ◌/◌, ◌^◌, ◌<◌, ◌≤◌, ◌≡◌, ◌⊎◌, refl, sym, ap, subst, ◌∙◌, String, none, some, List,
  [], ◌∷◌, ◌++◌, lookup, length, length-append, eqb, string_eq, arith, Bool-cases, inl, inr,
}
use l.Transaction.{Transaction}
use l.Elements.{Elem}
use l.Validator.Account.{Account, panic}
use l.Validator.Exception.{count_to, diff_nonce, select, exchange, check_exception_transaction}

-- The nonces `s`, `s + 1` and so on along a pool, and the same downwards from `t`.
abbrev pub NoncesFrom : ℕ → List (Elem Transaction) → Type 0
NoncesFrom s [] = Unit {0}
NoncesFrom s (e ∷ es) = (e.value.nonce ≡ s) × NoncesFrom (s + 1) es

abbrev NoncesDown : ℕ → List (Elem Transaction) → Type 0
NoncesDown t [] = Unit {0}
NoncesDown t (e ∷ es) = (e.value.nonce + 1 ≡ t) × NoncesDown (t - 1) es

NoncesDown-append :
    (t : ℕ) (es : List (Elem Transaction)) (e : Elem Transaction)
    → length es < t
    → NoncesDown t es
    → e.value.nonce + 1 + length es ≡ t
    → NoncesDown t (es ++ (e ∷ []))
NoncesDown-append t [] e small h k = (omega arith, tt)
NoncesDown-append t (x ∷ xs) e small h k =
    (h.0, NoncesDown-append (t - 1) xs e (omega arith) h.1 (omega arith))

length-reverse : (es : List (Elem Transaction)) → length (reverse es) ≡ length es
length-reverse [] = refl
length-reverse (x ∷ xs) =
    ap length (reverse-cons x xs)
    ∙ omega (arith, length-append (reverse xs) (x ∷ []), length-reverse xs)

-- A pool with ascending nonces has descending ones from the back.
reverse-NoncesDown :
    (s : ℕ) (es : List (Elem Transaction))
    → NoncesFrom s es
    → NoncesDown (s + length es) (reverse es)
reverse-NoncesDown s [] h = tt
reverse-NoncesDown s (x ∷ xs) h =
    subst (NoncesDown (s + length (x ∷ xs))) (sym (reverse-cons x xs)) (
      NoncesDown-append (s + length (x ∷ xs)) (reverse xs) x (omega (arith, length-reverse xs))
        (subst (λ t. NoncesDown t (reverse xs)) (omega arith) (reverse-NoncesDown (s + 1) xs h.1))
        (omega (arith, h.0, length-reverse xs)))

-- An element of the list.
abbrev pub In : Elem Transaction → List (Elem Transaction) → Type 0
In e [] = ⊥
In e (x ∷ xs) = (x ≡ e) ⊎ In e xs

In-append :
    (e : Elem Transaction) (xs ys : List (Elem Transaction)) → In e (xs ++ ys) → In e xs ⊎ In e ys
In-append e [] ys h = inr h
In-append e (x ∷ xs) ys (inl here) = inl (inl here)
In-append e (x ∷ xs) ys (inr there) = elim (In-append e xs ys there) [
  | inl h ↦ inl (inr h)
  | inr h ↦ inr h
]

In-reverse : (e : Elem Transaction) (es : List (Elem Transaction)) → In e (reverse es) → In e es
In-reverse e [] h = h
In-reverse e (x ∷ xs) h =
    elim (In-append e (reverse xs) (x ∷ []) (subst (In e) (reverse-cons x xs) h)) [
      | inl h ↦ inr (In-reverse e xs h)
      | inr (inl here) ↦ inl here
      | inr (inr nothing) ↦ absurd nothing
    ]

count_to-In :
    (n cnt : ℕ) (e : Elem Transaction) (es : List (Elem Transaction))
    → count_to n cnt es ≡ some e
    → In e es
unfolding count_to
count_to-In n cnt e [] h = cc
count_to-In n cnt e (x ∷ xs) h = elim (Bool-cases (eqb (cnt + 1) n)) [
  | inl here ↦ inl (same x e (rw (here, count_to) at h))
  | inr later ↦ inr (count_to-In n (cnt + 1) e xs (rw (later, count_to) at h))
]
  where
    same : (x e : Elem Transaction) → some x ≡ some e → x ≡ e
    same x e h = cc

count_up :
    (s n cnt : ℕ) (es : List (Elem Transaction))
    → NoncesFrom s es
    → cnt < n
    → n ≤ cnt + length es
    → (e : Elem Transaction) × (count_to n cnt es ≡ some e) × (e.value.nonce + cnt + 1 ≡ s + n)
unfolding count_to
count_up s n cnt [] h above below = absurd (omega arith)
count_up s n cnt (x ∷ xs) h above below = elim (Bool-cases (eqb (cnt + 1) n)) [
  | inl here ↦ (x, rw here refl, ground (arith, h.0))
  | inr later ↦
      let (e, found, nonce) = count_up (s + 1) n (cnt + 1) xs h.1 (ground arith) (omega arith) in
      (e, rw later found, omega (arith, nonce))
]

count_down :
    (t n cnt : ℕ) (es : List (Elem Transaction))
    → NoncesDown t es
    → cnt < n
    → n ≤ cnt + length es
    → length es ≤ t
    → (e : Elem Transaction) × (count_to n cnt es ≡ some e) × (e.value.nonce + n ≡ t + cnt)
unfolding count_to
count_down t n cnt [] h above below room = absurd (omega arith)
count_down t n cnt (x ∷ xs) h above below room = elim (Bool-cases (eqb (cnt + 1) n)) [
  | inl here ↦ (x, rw here refl, ground (arith, h.0))
  | inr later ↦
      let (e, found, nonce) =
        count_down (t - 1) n (cnt + 1) xs h.1 (ground arith) (omega arith) (omega arith) in
      (e, rw later found, omega (arith, nonce, h.0))
]

count_zero : (cnt : ℕ) (es : List (Elem Transaction)) → count_to 0 cnt es ≡ none
unfolding count_to
count_zero cnt [] = refl
count_zero cnt (x ∷ xs) = ground (arith, count_zero (cnt + 1) xs)

-- In a pool with the nonces `s`, `s + 1` and so on.
module _ (s : ℕ) (es : List (Elem Transaction)) (row : NoncesFrom s es) where
  pub select_near :
      (d : ℕ)
      → 0 < d
      → d < length es / 2
      → (e : Elem Transaction) × (select d es ≡ some e)
        × (e.value.nonce + d ≡ s + length es)
        × In e es
  unfolding select
  select_near d some_ near =
      let (e, found, nonce) =
        count_down (s + length es) d 0 (reverse es) (reverse-NoncesDown s es row) some_
          (omega (arith, length-reverse es)) (omega (arith, length-reverse es)) in
      (
        e,
        ground (arith, found),
        omega (arith, nonce),
        In-reverse e es (count_to-In d 0 e (reverse es) found),
      )

  pub select_far :
      (d : ℕ)
      → length es / 2 ≤ d
      → d < length es
      → (e : Elem Transaction) × (select d es ≡ some e) × (e.value.nonce + d + 1 ≡ s + length es)
  unfolding select
  select_far d far inside =
      let (e, found, nonce) = count_up s (length es - d) 0 es row (omega arith) (omega arith) in
      (e, ground (arith, found), omega (arith, nonce))

  pub select_first : (d : ℕ) → d ≡ length es → 0 < d → select d es ≡ none
  unfolding select
  select_first d all some_ =
      let zeroth : length es - d ≡ 0 = omega arith in
      ground (arith, ap (λ n. count_to n 0 es) zeroth, count_zero 0 es)

pub exchange_wrong :
    (hash : Transaction → String) (tx : Transaction) (e : Elem Transaction) (va : Account)
    → e.value.nonce + 1 ≡ tx.nonce
    → exchange hash tx e va ≡ panic
unfolding exchange
exchange_wrong hash tx e va wrong = ground arith

module _ (hash : Transaction → String) (tx : Transaction) (va : Account) where
  pub behind_search :
      (d : ℕ)
      → lookup (hash tx) va.txs_map ≡ none
      → va.nonce < 2 ^ 31
      → tx.nonce + d ≡ va.nonce
      → 0 < d
      → d ≤ length va.txs_list
      → check_exception_transaction hash tx va
        ≡ elim (select d va.txs_list) [ none ↦ panic | some next ↦ exchange hash tx next va ]
  unfolding check_exception_transaction
  behind_search d new word same some_ inside =
      let diff : diff_nonce va.nonce tx.nonce ≡ d = omega arith in
      rw (new, check_exception_transaction) (rw diff (ground arith))
