-- ===== src/Vote/Quorum.antt =====
-- Two tickets share the voters: what a quorum of one leaves for the other.
use l.Base.{
  ℕ, ◌+◌, ◌*◌, ◌≤◌, ◌<◌, ◌≡◌, ◌≢◌, refl, ap, inl, inr, String, none, some, [], ◌∷◌, arith, Map,
  lookup, length, if◌then◌else◌, string_eq, ◌==◌, ==_iff, Bool-cases, Option-cases,
  length-insert_new, lookup-insert,
}
use l.Vote.{Vote, count_or_zero, size, add, voter_by_ticket}
use l.Vote.Tally.{IsTally, votes_for, add_old, add_new}

module _ {T : Type 0} (key : T → String) where
  votes_for_add_le :
      (h k : String) (m : Map String T) → h ≢ k → votes_for key h m + votes_for key k m ≤ length m
  unfolding votes_for
  votes_for_add_le h k [] d = omega arith
  votes_for_add_le h k ((who, t) ∷ m) d =
      ground (arith, votes_for_add_le h k m d, ==_iff (key t) h, ==_iff (key t) k)

  -- Among at most `n` voters, two tickets with different keys do not both have `q` votes if
  -- `n < 2 * q`.
  pub quorum_unique :
      (v : Vote T) (t u : T) (n q : ℕ)
      → IsTally key v
      → size v ≤ n
      → n < 2 * q
      → q ≤ voter_by_ticket key t v
      → q ≤ voter_by_ticket key u v
      → key t ≡ key u
  unfolding size voter_by_ticket
  quorum_unique v t u n q i few large ht hu = elim (Bool-cases (key t == key u)) [
    | inl same ↦ (==_iff (key t) (key u)).0 same
    | inr other ↦ absurd (
        omega (
          arith,
          i.counted (key t),
          i.counted (key u),
          votes_for_add_le (key t) (key u) v.tickets (λ e. cc ((==_iff (key t) (key u)).1 e)),
        ))
  ]

  -- A voter is counted once: a second ticket of the same voter leaves the box as it is; a first one is
  -- stored for its voter, all other voters keep theirs, and it adds one voter and one vote for its own
  -- key, and no other count moves.
  pub add_counts :
      (who other : String) (t u : T) (v : Vote T)
      → IsTally key v
      → let seen = lookup who v.tickets in
        (elim seen [ some _ ↦ add key who t v | none ↦ v ] ≡ v)
        × (lookup other (add key who t v).tickets ≡ elim seen [
          | some _ ↦ lookup other v.tickets
          | none ↦ if who == other then some t else lookup other v.tickets
        ])
        × (size (add key who t v) ≡ elim seen [ some _ ↦ size v | none ↦ size v + 1 ])
        × (voter_by_ticket key u (add key who t v) ≡ elim seen [
          | some _ ↦ voter_by_ticket key u v
          | none ↦ (if key t == key u then 1 else 0) + voter_by_ticket key u v
        ])
  unfolding size voter_by_ticket
  add_counts who other t u v i = elim (Option-cases (lookup who v.tickets)) [
    | inl new ↦
        rw (add_new key who t v new, new)
          (
            refl,
            lookup-insert who other t v.tickets,
            length-insert_new who t v.tickets new,
            ground (
              arith,
              lookup-insert (key t) (key u) (count_or_zero (lookup (key t) v.statistics) + 1)
                  v.statistics,
              ==_iff (key t) (key u),
            ),
          )
    | inr (old, e) ↦
        let same = add_old key who t old v e in
        rw e (
          same,
          ap (λ (b : Vote T). lookup other b.tickets) same,
          ap size same,
          ap (voter_by_ticket key u) same,
        )
  ]
