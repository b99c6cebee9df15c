-- ===== src/Vote/Winner.antt =====
-- `Voter` returns a ticket with the highest count, in whatever order the counts are visited.
use l.Base.{
  ℕ, ◌≤◌, ◌<◌, ◌≡◌, refl, ◌⊎◌, inl, inr, String, Option, some, [], ◌∷◌, arith, Map, lookup, length,
  if◌then◌else◌, string_eq, ==_iff, IsDistinct, Bool-cases, Option-cases, ltb, ap, eqb, sym, ◌∙◌,
}
use l.Vote.{Vote, count_or_zero, best, voter, size}
use l.Vote.Tally.{IsTally, votes_for}

-- The best count so far is kept or beaten.
best_above : (max : ℕ) (hash : String) (m : Map String ℕ) → max ≤ (best max hash m).0
unfolding best
best_above max hash [] = omega arith
best_above max hash ((h, n) ∷ rest) =
    ground (arith, best_above (if ltb max n then n else max) (if ltb max n then h else hash) rest)

-- No count is above the best one.
best_top :
    (max : ℕ) (hash h : String) (m : Map String ℕ)
    → count_or_zero (lookup h m) ≤ (best max hash m).0
unfolding best lookup
best_top max hash h [] = omega arith
best_top max hash h ((j, n) ∷ rest) = ground (
  arith,
  best_above (if ltb max n then n else max) (if ltb max n then j else hash) rest,
  best_top (if ltb max n then n else max) (if ltb max n then j else hash) h rest,
)

-- The best count is the first one or stands in the map under the hash that is returned.
best_found :
    (max : ℕ) (hash : String) (m : Map String ℕ)
    → IsDistinct m
    → (((best max hash m).0 ≡ max) × ((best max hash m).1 ≡ hash))
      ⊎ (lookup (best max hash m).1 m ≡ some (best max hash m).0)
unfolding best lookup
best_found max hash [] d = inl (refl, refl)
best_found max hash ((j, n) ∷ rest) d = ground (
  arith,
  best_found (if ltb max n then n else max) (if ltb max n then j else hash) rest d.1,
  ==_iff j (best (if ltb max n then n else max) (if ltb max n then j else hash) rest).1,
)

-- The winner of a ballot box in which somebody voted: a ticket, its number of voters, and no
-- ticket with more.
pub record IsWinner {T : Type 0} (key : T → String) (v : Vote T) (r : ℕ × Option T) : Type 0 where
  pub ticket : T
  pub returned : r.1 ≡ some ticket
  pub counts : r.0 ≡ votes_for key (key ticket) v.tickets
  pub positive : 0 < r.0
  pub highest : (hash : String) → votes_for key hash v.tickets ≤ r.0

module _ {T : Type 0} (key : T → String) (v : Vote T) (i : IsTally key v) where
  -- Without a count there is none to beat.
  no_counts : (m : Map String ℕ) → length m ≡ 0 → (best 0 "" m).0 ≡ 0
  unfolding best
  no_counts [] h = refl
  no_counts (e ∷ m) h = absurd (omega arith)

  voter-best :
      ((voter v).0 ≡ (best 0 "" v.statistics).0)
      × (0 < (voter v).0 → (voter v).1 ≡ lookup (best 0 "" v.statistics).1 v.hashes)
  unfolding voter
  voter-best = elim (Bool-cases (eqb (length v.statistics) 0)) [
    | inl empty ↦ rw empty (sym (no_counts v.statistics (ground arith)), λ h. absurd (omega arith))
    | inr some_ ↦ rw some_ (refl, λ h. refl)
  ]

  voter_highest : (hash : String) → votes_for key hash v.tickets ≤ (voter v).0
  voter_highest hash = omega (arith, best_top 0 "" hash v.statistics, i.counted hash, voter-best.0)

  voter_positive : (m : Map String T) → v.tickets ≡ m → 0 < length m → 0 < (voter v).0
  unfolding votes_for
  voter_positive [] e h = absurd (omega arith)
  voter_positive ((who, t) ∷ rest) e h =
      ground (arith, voter_highest (key t), ap (votes_for key (key t)) e, ==_iff (key t) (key t))

  voter_counted :
      0 < (voter v).0 → lookup (best 0 "" v.statistics).1 v.statistics ≡ some (voter v).0
  voter_counted h = ground (arith, best_found 0 "" v.statistics i.counts_distinct, voter-best.0)

  voter_ticket :
      0 < (voter v).0
      → (t : T) × ((voter v).1 ≡ some t) × ((voter v).0 ≡ votes_for key (key t) v.tickets)
  voter_ticket h = elim (Option-cases (lookup (best 0 "" v.statistics).1 v.hashes)) [
    | inl e ↦ cc (voter_counted h, i.known (best 0 "" v.statistics).1 e)
    | inr (t, e) ↦
        (t, voter-best.1 h ∙ e, ground (arith, i.keyed _ t e, voter_counted h, i.counted (key t)))
  ]

  -- In a ballot box in order in which somebody voted, `Voter` returns a ticket with the number
  -- of voters of its key, at least one, and no key has more, whatever the order in which the
  -- counts are visited.
  pub voter-IsWinner : 0 < size v → IsWinner key v (voter v)
  unfolding size
  voter-IsWinner h =
      let some_vote = voter_positive v.tickets refl h in
      let (t, returned, counts) = voter_ticket some_vote in
      record {
        ticket = t;
        returned = returned;
        counts = counts;
        positive = some_vote;
        highest = voter_highest;
      }
