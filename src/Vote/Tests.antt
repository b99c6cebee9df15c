-- ===== src/Vote/Tests.antt =====
-- Three voters and two tickets, each its own key.
use l.Base.{
  ◌+◌, ◌≡◌, ◌<◌, String, none, some, refl, arith, lookup, insert, if◌then◌else◌, ◌==◌, string_eq,
}
use l.Vote.{Vote, new_vote, add, voter, size, voter_by_ticket}
use l.Vote.Tally.{IsTally, new_vote-IsTally, add-IsTally}
use l.Vote.Winner.{IsWinner, voter-IsWinner}
use l.Vote.Quorum.{add_counts}

abbrev own_key : String → String
own_key t = t

abbrev one_vote : Vote String
one_vote = add own_key "a" "x" new_vote

abbrev three_votes : Vote String
three_votes = add own_key "c" "x" (add own_key "b" "y" one_vote)

one_vote-IsTally : IsTally own_key one_vote
one_vote-IsTally = add-IsTally own_key "a" "x" new_vote (new_vote-IsTally own_key)

three_votes-IsTally : IsTally own_key three_votes
three_votes-IsTally = add-IsTally own_key "c" "x" _ (add-IsTally own_key "b" "y" _ one_vote-IsTally)

three_voted : 0 < size three_votes
unfolding size add new_vote lookup insert
three_voted = omega arith

add-IsTally_example : IsTally own_key (add own_key "b" "y" one_vote)
add-IsTally_example = add-IsTally own_key "b" "y" one_vote one_vote-IsTally

voter-IsWinner_example : IsWinner own_key three_votes (voter three_votes)
voter-IsWinner_example = voter-IsWinner own_key three_votes three_votes-IsTally three_voted

-- The winner of the three votes is "x", with two.
three_votes_winner : voter three_votes ≡ (2, some "x")
unfolding voter add new_vote lookup insert
three_votes_winner = refl

add_counts_example :
    let seen = lookup "b" three_votes.tickets in
    (elim seen [ some _ ↦ add own_key "b" "x" three_votes | none ↦ three_votes ] ≡ three_votes)
    × (lookup "a" (add own_key "b" "x" three_votes).tickets ≡ elim seen [
      | some _ ↦ lookup "a" three_votes.tickets
      | none ↦ if own_key "b" == own_key "a" then some "x" else lookup "a" three_votes.tickets
    ])
    × (size (add own_key "b" "x" three_votes)
        ≡ elim seen [ some _ ↦ size three_votes | none ↦ size three_votes + 1 ])
    × (voter_by_ticket own_key "x" (add own_key "b" "x" three_votes) ≡ elim seen [
      | some _ ↦ voter_by_ticket own_key "x" three_votes
      | none ↦
          (if own_key "x" == own_key "x" then 1 else 0) + voter_by_ticket own_key "x" three_votes
    ])
add_counts_example = add_counts own_key "b" "a" "x" "x" three_votes three_votes-IsTally
