-- ===== src/Vote/Tally.antt =====
-- What a ballot box holds between two calls: the statistics count the tickets.
use l.Base.{
  ℕ, ◌+◌, ◌≤◌, ◌≡◌, ◌≢◌, refl, inl, inr, String, none, some, [], ◌∷◌, arith, Map, lookup, insert,
  if◌then◌else◌, string_eq, ◌==◌, ==_iff, Option-cases, lookup-insert, insert-IsDistinct,
  IsDistinct,
}
use l.Vote.{Vote, count_or_zero, new_vote, add}

module _ {T : Type 0} (key : T → String) where
  -- How many voters cast a ticket with this key.
  unfoldable pub votes_for : String → Map String T → ℕ
  votes_for hash [] = 0
  votes_for hash ((who, t) ∷ rest) = (if key t == hash then 1 else 0) + votes_for hash rest

  votes_for-insert :
      (hash who : String) (t : T) (m : Map String T)
      → lookup who m ≡ none
      → votes_for hash (insert who t m) ≡ (if key t == hash then 1 else 0) + votes_for hash m
  unfolding votes_for insert lookup
  votes_for-insert hash who t [] h = refl
  votes_for-insert hash who t ((w, u) ∷ m) h = ground (arith, votes_for-insert hash who t m)

  pub record IsTally (v : Vote T) : Type 0 where
    pub counted :
        (hash : String) → count_or_zero (lookup hash v.statistics) ≡ votes_for hash v.tickets
    pub keyed : (hash : String) (t : T) → lookup hash v.hashes ≡ some t → key t ≡ hash
    pub known : (hash : String) → lookup hash v.hashes ≡ none → lookup hash v.statistics ≡ none
    pub positive : (hash : String) → lookup hash v.statistics ≢ some 0
    pub voters_distinct : IsDistinct v.tickets
    pub counts_distinct : IsDistinct v.statistics

  pub new_vote-IsTally : IsTally new_vote
  unfolding new_vote lookup votes_for
  new_vote-IsTally = record {
    counted = λ hash. refl;
    keyed = λ hash t h. cc;
    known = λ hash h. refl;
    positive = λ hash h. cc;
    voters_distinct = tt;
    counts_distinct = tt;
  }

  pub add_old :
      (who : String) (t u : T) (v : Vote T) → lookup who v.tickets ≡ some u → add key who t v ≡ v
  unfolding add
  add_old who t u v h = rw (h, add)

  pub add_new :
      (who : String) (t : T) (v : Vote T)
      → lookup who v.tickets ≡ none
      → add key who t v ≡ record {
        tickets = insert who t v.tickets;
        hashes = insert (key t) t v.hashes;
        statistics = insert (key t) (count_or_zero (lookup (key t) v.statistics) + 1) v.statistics;
      }
  unfolding add
  add_new who t v h = rw (h, add)

  module _ (who : String) (t : T) (v : Vote T) (i : IsTally v)
      (new : lookup who v.tickets ≡ none) where
    counted_new :
        (hash : String)
        → count_or_zero (
            lookup hash
              (insert (key t) (count_or_zero (lookup (key t) v.statistics) + 1) v.statistics))
          ≡ votes_for hash (insert who t v.tickets)
    counted_new hash =
        rw (lookup-insert (key t) hash, votes_for-insert hash who t v.tickets new)
          (ground (arith, i.counted hash, ==_iff (key t) hash))

    keyed_new :
        (hash : String) (u : T) → lookup hash (insert (key t) t v.hashes) ≡ some u → key u ≡ hash
    keyed_new hash u h =
        ground (arith, lookup-insert (key t) hash t v.hashes, i.keyed hash u, ==_iff (key t) hash)

    known_new :
        (hash : String)
        → lookup hash (insert (key t) t v.hashes) ≡ none
        → lookup hash
            (insert (key t) (count_or_zero (lookup (key t) v.statistics) + 1) v.statistics)
          ≡ none
    known_new hash h = ground (
      arith,
      lookup-insert (key t) hash t v.hashes,
      lookup-insert (key t) hash (count_or_zero (lookup (key t) v.statistics) + 1) v.statistics,
      i.known hash,
    )

    positive_new :
        (hash : String)
        → lookup hash
            (insert (key t) (count_or_zero (lookup (key t) v.statistics) + 1) v.statistics)
          ≢ some 0
    positive_new hash = rw (lookup-insert (key t) hash) (ground (arith, i.positive hash))

    new-IsTally : IsTally (add key who t v)
    new-IsTally = rw (add_new who t v new) (record {
      counted = counted_new;
      keyed = keyed_new;
      known = known_new;
      positive = positive_new;
      voters_distinct = insert-IsDistinct who t v.tickets i.voters_distinct;
      counts_distinct = insert-IsDistinct (key t) _ v.statistics i.counts_distinct;
    })

  -- Each vote, a repeated one too, keeps a ballot box in order: the statistics count the
  -- tickets by key, and every count is positive and has a stored ticket.
  pub add-IsTally : (who : String) (t : T) (v : Vote T) → IsTally v → IsTally (add key who t v)
  add-IsTally who t v i = elim (Option-cases (lookup who v.tickets)) [
    | inl new ↦ new-IsTally who t v i new
    | inr (u, old) ↦ rw (add_old who t u v old) i
  ]

  -- No count falls when a vote is added.
  pub votes_for-add_le :
      (hash who : String) (t : T) (v : Vote T)
      → votes_for hash v.tickets ≤ votes_for hash (add key who t v).tickets
  votes_for-add_le hash who t v = elim (Option-cases (lookup who v.tickets)) [
    | inl new ↦ rw (add_new who t v new) (omega (arith, votes_for-insert hash who t v.tickets new))
    | inr (u, old) ↦ rw (add_old who t u v old) (omega arith)
  ]
