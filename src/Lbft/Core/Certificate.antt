-- ===== src/Lbft/Core/Certificate.antt =====
-- What an instance knows when it has passed a phase: a certificate on each of its chains.
use l.Base.{ℕ, ◌≡◌, ==_self, true, String, arith, string_eq, ==_iff}
use l.Vote.Tally.{IsTally}
use l.Lbft.Message.{Prepare, Commit}
use l.Lbft.Core.{Core, prepared_on, committed_on, maybe_prepare_pass, maybe_commit_pass}
use l.Lbft.Votes.{prepare_fits, commit_fits}
use l.Lbft.Votes.Enough.{Certificate, enough-Certificate}

-- What an instance knows of a chain when it has passed a phase there.
abbrev pub PreparedOn : (Prepare → String) → String → Core → String → Type 0
PreparedOn key own core chain =
    Certificate key (prepare_fits own core.digest core.seq_no chain) (λ p. p.quorum)
      core.prepare_vote

abbrev pub CommittedOn : (Commit → String) → String → Core → String → Type 0
CommittedOn key own core chain =
    Certificate key (commit_fits own core.digest core.seq_no chain) (λ c. c.quorum) core.commit_vote

-- A ticket that fits the own chain is for the digest and the number of the instance.
pub own_commit_fits :
    (own digest : String) (seq_no : ℕ) (c : Commit)
    → commit_fits own digest seq_no own c ≡ true
    → (c.chain ≡ own) × (c.digest ≡ digest) × (c.seq_no ≡ seq_no)
unfolding commit_fits
own_commit_fits own digest seq_no c h =
    ground (arith, ==_self own, ==_iff c.chain own, ==_iff c.digest digest)

pub maybe_prepare_pass_certified :
    (key : Prepare → String) (own : String) (core : Core)
    → IsTally key core.prepare_vote
    → (maybe_prepare_pass own core).1 ≡ true
    → (core.is_pass_pre_prepare ≡ true)
      × PreparedOn key own core core.from_chain
      × PreparedOn key own core core.to_chain
unfolding maybe_prepare_pass prepared_on
maybe_prepare_pass_certified key own core i h =
    let from : prepared_on own core core.from_chain ≡ true = ground arith in
    let to : prepared_on own core core.to_chain ≡ true =
      ground (arith, ==_iff core.from_chain core.to_chain) in
    (
      ground arith,
      enough-Certificate key _ _ core.prepare_vote i from,
      enough-Certificate key _ _ core.prepare_vote i to,
    )

pub maybe_commit_pass_certified :
    (key : Commit → String) (own : String) (core : Core)
    → IsTally key core.commit_vote
    → (maybe_commit_pass own core).1 ≡ true
    → (core.is_pass_prepare ≡ true)
      × CommittedOn key own core core.from_chain
      × CommittedOn key own core core.to_chain
unfolding maybe_commit_pass committed_on
maybe_commit_pass_certified key own core i h =
    let from : committed_on own core core.from_chain ≡ true = ground arith in
    let to : committed_on own core core.to_chain ≡ true =
      ground (arith, ==_iff core.from_chain core.to_chain) in
    (
      ground arith,
      enough-Certificate key _ _ core.commit_vote i from,
      enough-Certificate key _ _ core.commit_vote i to,
    )
