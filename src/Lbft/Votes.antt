-- ===== src/Lbft/Votes.antt =====
-- How maybePreparePass and maybeCommitPass of core/consensus/lbft/lbft-core.go count the votes of a
-- ballot box: the callbacks that they hand to IterTicket, and the test behind each count.
pub mod Enough
mod Tests
use l.Base.{
  ℕ, ◌+◌, ◌<◌, Bool, true, false, not, ◌&&◌, ◌||◌, String, Option, none, some, List, [], ◌∷◌, ltb,
  leb, eqb, if◌then◌else◌, string_eq, ◌==◌,
}
use l.Vote.{Vote, iter_ticket}
use l.Lbft.Message.{Prepare, Commit, min_quorum}

-- One callback of the count: a ticket that fits and has more votes than the best so far.
module _ {T : Type 0} where
  unfoldable pub consider : (T → Bool) → (T → ℕ) → Option T → ℕ → ℕ × ℕ → ℕ × ℕ
  consider fits quorum none num (max, q) = (max, q)
  consider fits quorum (some t) num (max, q) =
      if fits t && ltb max num then (num, quorum t) else (max, q)

  unfoldable pub count : (T → Bool) → (T → ℕ) → Vote T → ℕ × ℕ
  unfolding consider
  count fits quorum v = iter_ticket (consider fits quorum) v (0, 0)

-- The test behind each count: enough votes for the quorum that the best ticket asks for.
unfoldable pub enough : ℕ × ℕ → Bool
enough (max, quorum) = not (eqb max 0 || ltb quorum min_quorum || ltb max quorum)

-- On the replica's own chain a vote counts for the digest and number of the instance only.
unfoldable pub prepare_fits : String → String → ℕ → String → Prepare → Bool
prepare_fits own digest seq_no chain p =
    if chain == own
    then p.chain == chain && p.digest == digest && eqb p.seq_no seq_no
    else p.chain == chain

unfoldable pub commit_fits : String → String → ℕ → String → Commit → Bool
commit_fits own digest seq_no chain c =
    if chain == own
    then c.chain == chain && c.digest == digest && eqb c.seq_no seq_no
    else c.chain == chain
