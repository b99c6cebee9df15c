-- ===== src/Lbft/Committed.antt =====
-- `recvCommitted` of core/consensus/lbft/lbft.go: announcements of committed batches are counted by
-- name, and one that a quorum of replicas agrees on goes to the writer. The key of a ticket is a
-- parameter, as in `Vote`. A ballot box without a winner makes the clean-up dereference nil (`none`).
pub mod Counted
mod Tests
use l.Base.{
  ℕ, ◌<◌, Bool, true, false, ◌||◌, String, Option, none, some, List, [], ◌∷◌, ◌++◌, Map, lookup,
  insert, delete, leb, if◌then◌else◌, string_eq,
}
use l.Vote.{Vote, add, new_vote, voter, voter_by_ticket}
use l.Lbft.Message.{Committed}

-- `voteCommitted`, and what went to `lbftCoreCommittedChan`.
pub record Counting : Type 0 where
  pub votes : Map String (Vote Committed)
  pub sent : List Committed

abbrev pub find_or_new : Option (Vote Committed) → Vote Committed
find_or_new none = new_vote
find_or_new (some v) = v

-- The clean-up: the ballot boxes go whose winner has been executed.
unfoldable pub drop_executed :
    ℕ → Map String (Vote Committed) → Option (Map String (Vote Committed))
drop_executed exec [] = some []
drop_executed exec ((name, v) ∷ rest) =
    let kept = drop_executed exec rest in
    elim (voter v).1 [
      | none ↦ none
      | some ct ↦ elim kept [
        | none ↦ none
        | some m ↦ some (if leb ct.seq_no exec then m else (name, v) ∷ m)
      ]
    ]

module _ (key : Committed → String) where
  -- `exec` is the number executed last, `q` the quorum, and `has` tells whether the batch of this
  -- number is there already.
  unfoldable pub recv_committed : ℕ → ℕ → Bool → Committed → Counting → Option Counting
  unfolding drop_executed
  recv_committed exec q has ct s =
      let v = add key ct.replica_id ct (find_or_new (lookup ct.name s.votes)) in
      if leb ct.seq_no exec || has
      then elim (drop_executed exec (delete ct.name s.votes)) [
        | none ↦ none
        | some m ↦ some (record s { votes = m })
      ]
      else if leb q (voter_by_ticket key ct v)
      then some (record { votes = delete ct.name s.votes; sent = s.sent ++ (ct ∷ []) })
      else some (record s { votes = insert ct.name v s.votes })
