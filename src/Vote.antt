-- ===== src/Vote.antt =====
-- components/utils/vote/vote.go: a ballot box that counts the voters of equal tickets.
-- Tickets are compared by `key`, the hex of the SHA-256 of the ticket's serialization, which is
-- a parameter. The mutex makes each method one step. Go's `nil` ticket is `none`.
pub mod Tally
pub mod Quorum
pub mod Winner
pub mod Tickets
mod Tests
use l.Base.{
  ℕ, ◌+◌, ◌≡◌, Bool, String, Option, none, some, List, [], ◌∷◌, Map, lookup, insert, length, ltb,
  eqb, if◌then◌else◌, string_eq,
}

pub record Vote (T : Type 0) : Type 0 where
  pub tickets : Map String T
  pub hashes : Map String T
  pub statistics : Map String ℕ

-- Reading a missing count gives 0.
abbrev pub count_or_zero : Option ℕ → ℕ
count_or_zero none = 0
count_or_zero (some n) = n

-- `Voter`'s loop: the first count above all before it.
pub best : ℕ → String → Map String ℕ → ℕ × String
best max hash [] = (max, hash)
best max hash ((h, n) ∷ rest) =
    best (if ltb max n then n else max) (if ltb max n then h else hash) rest

-- `for k, v := range m`, with a body that updates a state.
unfoldable pub range {ℓ} : {S : Type ℓ} {V : Type 0} → (String → V → S → S) → Map String V → S → S
range f [] s = s
range f ((k, x) ∷ rest) s = range f rest (f k x s)

module _ {T : Type 0} where
  unfoldable pub clear : Vote T → Vote T
  clear v = record { tickets = []; hashes = []; statistics = [] }

  -- `NewVote` clears a zero value.
  unfoldable pub new_vote : Vote T
  new_vote = record { tickets = []; hashes = []; statistics = [] }

  unfoldable pub size : Vote T → ℕ
  size v = length v.tickets

  pub voter : Vote T → ℕ × Option T
  unfolding best
  voter v =
      let (max, hash) = best 0 "" v.statistics in
      if eqb (length v.statistics) 0 then (0, none) else (max, lookup hash v.hashes)

  -- `IterVoter` and `IterTicket`, with a callback that updates a state.
  unfoldable pub iter_voter {ℓ} : {S : Type ℓ} → (String → T → S → S) → Vote T → S → S
  unfolding range
  iter_voter f v = range f v.tickets

  unfoldable pub iter_ticket {ℓ} : {S : Type ℓ} → (Option T → ℕ → S → S) → Vote T → S → S
  unfolding range
  iter_ticket f v = range (λ hash num. f (lookup hash v.hashes) num) v.statistics

module _ {T : Type 0} (key : T → String) where
  unfoldable pub add : String → T → Vote T → Vote T
  add who ticket v = elim (lookup who v.tickets) [
    | some _ ↦ v
    | none ↦
        let hash = key ticket in
        record {
          tickets = insert who ticket v.tickets;
          hashes = insert hash ticket v.hashes;
          statistics = insert hash (count_or_zero (lookup hash v.statistics) + 1) v.statistics;
        }
  ]

  unfoldable pub voter_by_ticket : T → Vote T → ℕ
  voter_by_ticket ticket v = count_or_zero (lookup (key ticket) v.statistics)

  unfoldable pub voter_by_voter : String → Vote T → ℕ × Option T
  unfolding voter_by_ticket
  voter_by_voter who v = elim (lookup who v.tickets) [
    | none ↦ (0, none)
    | some ticket ↦ (voter_by_ticket ticket v, some ticket)
  ]
