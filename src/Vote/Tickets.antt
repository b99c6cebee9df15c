-- ===== src/Vote/Tickets.antt =====
-- Each count of a ballot box has a ticket, whatever the keys of the tickets do later.
use l.Base.{
  ℕ, ◌+◌, ◌<◌, ◌≡◌, ◌≢◌, ◌⊎◌, refl, ap, Bool, true, false, String, none, some, [], ◌∷◌, Map, lookup,
  lookup-insert, ltb, eqb, if◌then◌else◌, string_eq, ==_self, arith, Bool-cases, Option-cases, inl,
  inr, length,
}
use l.Vote.{Vote, clear, voter, best, add, count_or_zero}

abbrev pub HasTickets : {T : Type 0} → Vote T → Type 0
HasTickets box = (hash : String) → lookup hash box.hashes ≡ none → lookup hash box.statistics ≡ none

-- A pair of a count and a key is the given one, or its key has a count.
abbrev Counted : ℕ → String → Map String ℕ → ℕ × String → Type 0
Counted max hash m p = (p ≡ (max, hash)) ⊎ (lookup p.1 m ≢ none)

counted_later :
    (h : String) (n : ℕ) (m : Map String ℕ) (k : String)
    → (k ≡ h) ⊎ (lookup k m ≢ none)
    → lookup k ((h, n) ∷ m) ≢ none
unfolding lookup
counted_later h n m k (inl e) = rw (e, ==_self h) (cc)
counted_later h n m k (inr there) = ground (arith, there)

Counted-step :
    (more : Bool) (max : ℕ) (hash h : String) (n : ℕ) (m : Map String ℕ) (p : ℕ × String)
    → Counted (if more then n else max) (if more then h else hash) m p
    → Counted max hash ((h, n) ∷ m) p
Counted-step true max hash h n m p (inl e) =
    inr (counted_later h n m p.1 (inl (ap (λ (q : ℕ × String). q.1) e)))
Counted-step true max hash h n m p (inr there) = inr (counted_later h n m p.1 (inr there))
Counted-step false max hash h n m p (inl e) = inl e
Counted-step false max hash h n m p (inr there) = inr (counted_later h n m p.1 (inr there))

best_held : (max : ℕ) (hash : String) (m : Map String ℕ) → Counted max hash m (best max hash m)
unfolding best
best_held max hash [] = inl refl
best_held max hash ((h, n) ∷ m) =
    let rest = best_held (if ltb max n then n else max) (if ltb max n then h else hash) m in
    Counted-step (ltb max n) max hash h n m _ rest

module _ {T : Type 0} (box : Vote T) (t : HasTickets box) where
  best_ticket :
      0 < (best 0 "" box.statistics).0
      → (r : T) × (lookup (best 0 "" box.statistics).1 box.hashes ≡ some r)
  best_ticket h = elim (Option-cases (lookup (best 0 "" box.statistics).1 box.hashes)) [
    | inr found ↦ found
    | inl missing ↦ elim (best_held 0 "" box.statistics) [
      | inl e ↦ absurd (omega (arith, ap (λ (p : ℕ × String). p.0) e))
      | inr there ↦ absurd (there (t (best 0 "" box.statistics).1 missing))
    ]
  ]

  pub voter-has_ticket : 0 < (voter box).0 → (r : T) × ((voter box).1 ≡ some r)
  unfolding voter
  voter-has_ticket h = elim (Bool-cases (eqb (length box.statistics) 0)) [
    | inl empty ↦ absurd (omega (arith, rw empty at h))
    | inr counts ↦ rw counts (best_ticket (rw counts at h))
  ]

pub clear-HasTickets : {T : Type 0} (box : Vote T) → HasTickets (clear box)
unfolding clear lookup
clear-HasTickets box hash missing = refl

pub add-HasTickets :
    {T : Type 0} (key : T → String) (who : String) (t : T) (box : Vote T)
    → HasTickets box
    → HasTickets (add key who t box)
unfolding add
add-HasTickets key who t box h hash = elim (Option-cases (lookup who box.tickets)) [
  | inr (u, old) ↦ rw (old, add) (h hash)
  | inl new ↦
      rw
        (
          new,
          add,
          lookup-insert (key t) hash t box.hashes,
          lookup-insert (key t) hash (count_or_zero (lookup (key t) box.statistics) + 1)
              box.statistics,
        )
        (ground (arith, h hash))
]
