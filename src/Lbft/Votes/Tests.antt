-- ===== src/Lbft/Votes/Tests.antt =====
-- Three replicas prepare the same batch on the own chain, and three are asked for.
use l.Base.{
  ℕ, ◌≡◌, ◌≤◌, refl, true, Bool, Bool-cases, inl, inr, subst, ap, sym, Option, none, some,
  if◌then◌else◌, ◌==◌, String, arith, lookup, insert, string_eq,
}
use l.Vote.{Vote, add, new_vote}
use l.Vote.Tally.{IsTally, new_vote-IsTally, add-IsTally, votes_for}
use l.Lbft.Message.{Prepare}
use l.Lbft.Votes.{count, enough, prepare_fits}
use l.Lbft.Votes.Enough.{enough_of_votes}

abbrev digest_of : Prepare → String
digest_of p = p.digest

abbrev prepare_by : String → Prepare
prepare_by who = record {
  name = "x";
  primary_id = "a";
  chain = "0";
  replica_id = who;
  seq_no = 1;
  digest = "t";
  quorum = 3;
}

abbrev fitting : Prepare → Bool
fitting = prepare_fits "0" "t" 1 "0"

abbrev asked_of : Option Prepare → ℕ
asked_of none = 3
asked_of (some p) = p.quorum

abbrev asked : Prepare → ℕ
asked p = p.quorum

abbrev three_alike : Vote Prepare
three_alike =
    add digest_of "c" (prepare_by "c")
      (add digest_of "b" (prepare_by "b") (add digest_of "a" (prepare_by "a") new_vote))

three_alike-IsTally : IsTally digest_of three_alike
three_alike-IsTally = add-IsTally digest_of "c" (prepare_by "c") _ (
    add-IsTally digest_of "b" (prepare_by "b") _
      (add-IsTally digest_of "a" (prepare_by "a") _ (new_vote-IsTally digest_of)))

three_alike_stored : lookup "t" three_alike.hashes ≡ some (prepare_by "c")
unfolding add new_vote lookup insert
three_alike_stored = refl

three_alike_votes : 3 ≤ votes_for digest_of "t" three_alike.tickets
unfolding votes_for add new_vote lookup insert
three_alike_votes = omega arith

fits_here : fitting (prepare_by "c") ≡ true
unfolding prepare_fits
fits_here = refl

-- Each stored ticket asks for three.
three_asked :
    (hash : String) (u : Prepare)
    → lookup hash three_alike.hashes ≡ some u
    → fitting u ≡ true
    → u.quorum ≡ 3
unfolding add new_vote lookup insert
three_asked hash u h fit = elim (Bool-cases ("t" == hash)) [
  | inl here ↦ only u (subst (λ b. (if b then some (prepare_by "c") else none) ≡ some u) here h)
  | inr there ↦
      no_ticket u (subst (λ b. (if b then some (prepare_by "c") else none) ≡ some u) there h)
]
  where
    only : (u : Prepare) → some (prepare_by "c") ≡ some u → u.quorum ≡ 3
    only u e = ap asked_of (sym e)

    no_ticket : (u : Prepare) → none ≡ some u → u.quorum ≡ 3
    no_ticket u e = cc

enough_of_votes_example : enough (count fitting asked three_alike) ≡ true
enough_of_votes_example =
    enough_of_votes digest_of fitting asked three_alike three_alike-IsTally (prepare_by "c") 3
      (omega arith) three_alike_stored fits_here three_asked three_alike_votes
