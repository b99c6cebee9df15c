-- ===== src/Lbft/Votes/Enough.antt =====
-- What a count of votes establishes: a ticket that fits, with as many voters as it asks for.
use l.Base.{
  ℕ, ◌≤◌, ◌<◌, ◌≡◌, refl, ap, sym, subst, ◌∙◌, ==_self, ◌⊎◌, inl, inr, Bool, true, String, none,
  some, [], ◌∷◌, arith, Map, lookup, string_eq, ◌==◌, ==_iff, IsDistinct, Bool-cases, Option-cases,
  ltb, ◌&&◌,
}
use l.Vote.{Vote, count_or_zero, range, iter_ticket}
use l.Vote.Tally.{IsTally, votes_for}
use l.Lbft.Votes.{consider, count, enough}

module _ {T : Type 0} (fits : T → Bool) (quorum : T → ℕ) (hashes : Map String T) where
  abbrev scan : Map String ℕ → ℕ × ℕ → ℕ × ℕ
  scan = range (λ hash num. consider fits quorum (lookup hash hashes) num)

  abbrev Found : Map String ℕ → ℕ × ℕ → Type 0
  Found m r =
      (t : T) × (hash : String) × (lookup hash hashes ≡ some t)
      × (fits t ≡ true)
      × (r.1 ≡ quorum t)
      × (lookup hash m ≡ some r.0)

  abbrev step : String → ℕ → ℕ × ℕ → ℕ × ℕ
  step hash num s = consider fits quorum (lookup hash hashes) num s

  later :
      (j : String) (n : ℕ) (m : Map String ℕ) (r : ℕ × ℕ)
      → lookup j m ≡ none
      → Found m r
      → Found ((j, n) ∷ m) r
  unfolding lookup
  later j n m r new (t, hash, stored, fit, asks, stands) =
      (t, hash, stored, fit, asks, ground (arith, ==_iff j hash))

  first :
      (j : String) (n : ℕ) (m : Map String ℕ) (s : ℕ × ℕ)
      → (step j n s ≡ s) ⊎ Found ((j, n) ∷ m) (step j n s)
  unfolding consider lookup
  first j n m s = elim (Option-cases (lookup j hashes)) [
    | inl nil ↦ inl (rw nil)
    | inr (t, stored) ↦ elim (Bool-cases (fits t && ltb s.0 n)) [
      | inl better ↦
          let taken : step j n s ≡ (n, quorum t) = rw (stored, better) in
          inr (
            t,
            j,
            stored,
            ground arith,
            ap (λ r. r.1) taken,
            (rw (==_self j) (ap (λ r. some r.0) (sym taken))),
          )
      | inr worse ↦ inl (rw (stored, worse))
    ]
  ]

  -- The scan returns what it started with, or a ticket that fits with its count.
  scan_found : (m : Map String ℕ) (s : ℕ × ℕ) → IsDistinct m → (scan m s ≡ s) ⊎ Found m (scan m s)
  unfolding range
  scan_found [] s d = inl refl
  scan_found ((j, n) ∷ m) s d = elim (scan_found m (step j n s) d.1) [
    | inr found ↦ inr (later j n m (scan m (step j n s)) d.0 found)
    | inl same ↦ elim (first j n m s) [
      | inl kept ↦ inl (same ∙ kept)
      | inr found ↦ inr (subst (Found ((j, n) ∷ m)) (sym same) found)
    ]
  ]

  step_grows : (j : String) (n : ℕ) (s : ℕ × ℕ) → s.0 ≤ (step j n s).0
  unfolding consider
  step_grows j n s = ground arith

  scan_grows : (m : Map String ℕ) (s : ℕ × ℕ) → s.0 ≤ (scan m s).0
  unfolding range
  scan_grows [] s = omega arith
  scan_grows ((j, n) ∷ m) s = omega (arith, step_grows j n s, scan_grows m (step j n s))

  step_takes :
      (j : String) (n : ℕ) (s : ℕ × ℕ) (t : T)
      → lookup j hashes ≡ some t
      → fits t ≡ true
      → n ≤ (step j n s).0
  unfolding consider
  step_takes j n s t stored fit = ground arith

  -- No ticket that fits has a count above the one returned.
  scan_top :
      (m : Map String ℕ) (s : ℕ × ℕ) (hash : String) (t : T)
      → lookup hash hashes ≡ some t
      → fits t ≡ true
      → count_or_zero (lookup hash m) ≤ (scan m s).0
  unfolding range lookup
  scan_top [] s hash t stored fit = omega arith
  scan_top ((j, n) ∷ m) s hash t stored fit = elim (Bool-cases (j == hash)) [
    | inl here ↦
        let same : j ≡ hash = (==_iff j hash).0 here in
        rw here (
          omega (
            arith,
            step_takes j n s t (ap (λ k. lookup k hashes) same ∙ stored) fit,
            scan_grows m (step j n s),
          ))
    | inr there ↦ rw there (scan_top m (step j n s) hash t stored fit)
  ]

-- A ticket that fits, cast by at least as many voters as the quorum it names, and by 3 at least.
pub record Certificate {T : Type 0} (key : T → String) (fits : T → Bool) (quorum : T → ℕ)
    (v : Vote T) : Type 0 where
  pub ticket : T
  pub fit : fits ticket ≡ true
  pub large : 3 ≤ quorum ticket
  pub backed : quorum ticket ≤ votes_for key (key ticket) v.tickets

module _ {T : Type 0} (key : T → String) (fits : T → Bool) (quorum : T → ℕ) (v : Vote T)
    (i : IsTally key v) where
  enough_bounds : (r : ℕ × ℕ) → enough r ≡ true → (0 < r.0) × (3 ≤ r.1) × (r.1 ≤ r.0)
  unfolding enough
  enough_bounds r h = ground arith

  enough_intro : (r : ℕ × ℕ) → 3 ≤ r.1 → r.1 ≤ r.0 → enough r ≡ true
  unfolding enough
  enough_intro r h k = ground arith

  counted_ticket :
      (t : T) (hash : String) (n : ℕ)
      → lookup hash v.hashes ≡ some t
      → lookup hash v.statistics ≡ some n
      → votes_for key (key t) v.tickets ≡ n
  counted_ticket t hash n stored stands =
      ap (λ k. votes_for key k v.tickets) (i.keyed hash t stored)
      ∙ sym (i.counted hash)
      ∙ ap count_or_zero stands

  -- A count that is enough comes with a certificate.
  pub enough-Certificate : enough (count fits quorum v) ≡ true → Certificate key fits quorum v
  unfolding count iter_ticket
  enough-Certificate h =
      let (positive, large, reached) = enough_bounds (count fits quorum v) h in
      elim (scan_found fits quorum v.hashes v.statistics (0, 0) i.counts_distinct) [
        | inl none_fits ↦ absurd (omega (arith, ap (λ r. r.0) none_fits))
        | inr (t, hash, stored, fit, asks, stands) ↦ record {
          ticket = t;
          fit = fit;
          large = omega (arith, asks);
          backed = omega (arith, asks, counted_ticket t hash _ stored stands);
        }
      ]

  -- In a ballot box in order, if a stored ticket fits and has at least `q` votes, with `q` at
  -- least 3, and all stored tickets that fit name the quorum `q`, then the count finds enough votes.
  pub enough_of_votes :
      (t : T) (q : ℕ)
      → 3 ≤ q
      → lookup (key t) v.hashes ≡ some t
      → fits t ≡ true
      → ((hash : String) (u : T) → lookup hash v.hashes ≡ some u → fits u ≡ true → quorum u ≡ q)
      → q ≤ votes_for key (key t) v.tickets
      → enough (count fits quorum v) ≡ true
  unfolding count iter_ticket
  enough_of_votes t q large stored fit agreed backed =
      let top = scan_top fits quorum v.hashes v.statistics (0, 0) (key t) t stored fit in
      elim (scan_found fits quorum v.hashes v.statistics (0, 0) i.counts_distinct) [
        | inl none_fits ↦ absurd (omega (arith, top, i.counted (key t), ap (λ r. r.0) none_fits))
        | inr (u, hash, at, fit', asks, stands) ↦
            enough_intro (count fits quorum v) (omega (arith, asks, agreed hash u at fit'))
              (omega (arith, asks, agreed hash u at fit', top, i.counted (key t)))
      ]
