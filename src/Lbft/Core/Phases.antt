-- ===== src/Lbft/Core/Phases.antt =====
-- The phases of an instance: what each message keeps, and what a committed instance has seen.
use l.Base.{
  ℕ, ◌≡◌, refl, sym, subst, Bool, true, false, String, some, arith, if◌then◌else◌, string_eq, not,
}
use l.Vote.{Vote, add}
use l.Vote.Tally.{IsTally, add-IsTally, votes_for-add_le, new_vote-IsTally}
use l.Lbft.Message.{
  RequestBatch, PrePrepare, Prepare, Commit, Message, pre_prepare, prepare, commit,
}
use l.Lbft.Core.{
  Core, Env, Outside, new_core, maybe_prepare_pass, maybe_commit_pass, handle_commit,
  handle_prepare, adopt, enter, handle_pre_prepare, handle_request_batch, dispatch, start,
}
use l.Lbft.Core.Cases.{commit_cases, prepare_cases, pre_prepare_cases}
use l.Lbft.Votes.Enough.{Certificate}
use l.Lbft.Core.Certificate.{
  PreparedOn, CommittedOn, maybe_prepare_pass_certified, maybe_commit_pass_certified,
}

-- More votes keep a certificate.
Certificate-add :
    {T : Type 0} (key : T → String) (fits : T → Bool) (quorum : T → ℕ) (v : Vote T) (who : String)
    (t : T)
    → Certificate key fits quorum v
    → Certificate key fits quorum (add key who t v)
Certificate-add key fits quorum v who t c = record {
  ticket = c.ticket;
  fit = c.fit;
  large = c.large;
  backed = omega (arith, c.backed, votes_for-add_le key (key c.ticket) who t v);
}

-- An instance between two messages: the phases are passed in order, the digest is that of the
-- batch, and each phase that is passed has its certificates on both chains.
pub record IsPhased (out : Outside) (own : String) (core : Core) : Type 0 where
  pub prepares : IsTally out.prepare_key core.prepare_vote
  pub commits : IsTally out.commit_key core.commit_vote
  pub adopted :
      core.is_pass_pre_prepare ≡ true
      → (b : RequestBatch) × (core.request_batch ≡ some b) × (core.digest ≡ out.hash b)
  pub prepared :
      core.is_pass_prepare ≡ true
      → (core.is_pass_pre_prepare ≡ true)
        × PreparedOn out.prepare_key own core core.from_chain
        × PreparedOn out.prepare_key own core core.to_chain
  pub committed :
      core.is_pass_commit ≡ true
      → (core.is_pass_prepare ≡ true)
        × CommittedOn out.commit_key own core core.from_chain
        × CommittedOn out.commit_key own core core.to_chain

module _ (out : Outside) (own : String) where
  pub new_core-IsPhased : (name : String) → IsPhased out own (new_core name)
  unfolding new_core
  new_core-IsPhased name = record {
    prepares = new_vote-IsTally out.prepare_key;
    commits = new_vote-IsTally out.commit_key;
    adopted = λ h. cc;
    prepared = λ h. cc;
    committed = λ h. cc;
  }

  -- A vote that is counted keeps what is known.
  vote_prepare :
      (core : Core) (p : Prepare)
      → IsPhased out own core
      → IsPhased out own
          (record core { prepare_vote = add out.prepare_key p.replica_id p core.prepare_vote })
  vote_prepare core p i = record {
    prepares = add-IsTally out.prepare_key p.replica_id p core.prepare_vote i.prepares;
    commits = i.commits;
    adopted = i.adopted;
    prepared = λ h.
        let (before, from, to) = i.prepared h in
        (before, Certificate-add _ _ _ _ _ _ from, Certificate-add _ _ _ _ _ _ to);
    committed = i.committed;
  }

  vote_commit :
      (core : Core) (c : Commit)
      → IsPhased out own core
      → IsPhased out own
          (record core { commit_vote = add out.commit_key c.replica_id c core.commit_vote })
  vote_commit core c i = record {
    prepares = i.prepares;
    commits = add-IsTally out.commit_key c.replica_id c core.commit_vote i.commits;
    adopted = i.adopted;
    prepared = i.prepared;
    committed = λ h.
        let (before, from, to) = i.committed h in
        (before, Certificate-add _ _ _ _ _ _ from, Certificate-add _ _ _ _ _ _ to);
  }

  pass_prepare :
      (core : Core)
      → IsPhased out own core
      → (maybe_prepare_pass own core).1 ≡ true
      → IsPhased out own (record core { is_pass_prepare = true })
  pass_prepare core i h = record {
    prepares = i.prepares;
    commits = i.commits;
    adopted = i.adopted;
    prepared = λ _. maybe_prepare_pass_certified out.prepare_key own core i.prepares h;
    committed = λ h. let (before, from, to) = i.committed h in (refl, from, to);
  }

  pass_commit :
      (core : Core)
      → IsPhased out own core
      → (maybe_commit_pass own core).1 ≡ true
      → IsPhased out own (record core { is_pass_commit = true })
  pass_commit core i h = record {
    prepares = i.prepares;
    commits = i.commits;
    adopted = i.adopted;
    prepared = i.prepared;
    committed = λ _. maybe_commit_pass_certified out.commit_key own core i.commits h;
  }

module _ (out : Outside) (env : Env) where
  pub handle_commit-IsPhased :
      (c : Commit) (core : Core)
      → IsPhased out env.chain core
      → IsPhased out env.chain (handle_commit out env c core).0
  handle_commit-IsPhased c core i =
      commit_cases out env c core (λ r. IsPhased out env.chain r.0) i
        (vote_commit out env.chain core c i)
        (λ _ pass. pass_commit out env.chain _ (vote_commit out env.chain core c i) pass)

  pub handle_prepare-IsPhased :
      (p : Prepare) (core : Core)
      → IsPhased out env.chain core
      → IsPhased out env.chain (handle_prepare out env p core).0
  handle_prepare-IsPhased p core i =
      let voted = vote_prepare out env.chain core p i in
      prepare_cases out env p core (λ r. IsPhased out env.chain r.0) i voted
        (λ _ pass. handle_commit-IsPhased _ _ (pass_prepare out env.chain _ voted pass))

  -- Nothing is known before the PrePrepare, so the chains and the number may be set.
  enter-IsPhased :
      (batch : RequestBatch) (n : ℕ) (core : Core)
      → core.is_pass_pre_prepare ≡ false
      → IsPhased out env.chain core
      → IsPhased out env.chain (enter out env batch n core)
  unfolding enter
  enter-IsPhased batch n core new i = record {
    prepares = i.prepares;
    commits = i.commits;
    adopted = λ h. cc;
    prepared = λ h. cc (i.prepared h).0;
    committed = λ h. cc ((i.prepared (i.committed h).0).0);
  }

  adopt-IsPhased :
      (batch : RequestBatch) (core : Core)
      → core.is_pass_pre_prepare ≡ false
      → IsPhased out env.chain core
      → IsPhased out env.chain (adopt out env batch core).0
  unfolding adopt
  adopt-IsPhased batch core new i = handle_prepare-IsPhased _ _ (record {
    prepares = i.prepares;
    commits = i.commits;
    adopted = λ h. (batch, refl, refl);
    prepared = λ h. cc (i.prepared h).0;
    committed = λ h. cc ((i.prepared (i.committed h).0).0);
  })

  pub handle_pre_prepare-IsPhased :
      (pp : PrePrepare) (core : Core)
      → IsPhased out env.chain core
      → IsPhased out env.chain (handle_pre_prepare out env pp core).0
  handle_pre_prepare-IsPhased pp core i =
      pre_prepare_cases out env pp core (λ r. IsPhased out env.chain r.0) i
        (λ new. enter-IsPhased pp.requests pp.seq_no core new i)
        (λ new es _.
          adopt-IsPhased pp.requests _ (still_new new)
            (enter-IsPhased pp.requests pp.seq_no core new i))
    where
      still_new :
          core.is_pass_pre_prepare ≡ false
          → (enter out env pp.requests pp.seq_no core).is_pass_pre_prepare ≡ false
      still_new new = unfold enter in new

  -- Every message keeps an instance in order.
  pub dispatch-IsPhased :
      (m : Message) (core : Core)
      → IsPhased out env.chain core
      → IsPhased out env.chain (dispatch out env m core).0
  unfolding dispatch
  dispatch-IsPhased (pre_prepare pp) core i = handle_pre_prepare-IsPhased pp core i
  dispatch-IsPhased (prepare p) core i = handle_prepare-IsPhased p core i
  dispatch-IsPhased (commit c) core i = handle_commit-IsPhased c core i
  dispatch-IsPhased _ core i = i

  -- An instance that has adopted nothing may be started and given a number.
  started : Bool → ℕ → Core → Core
  started late n core = record core {
    seq_no = n;
    is_running = if core.is_running then true else not late;
  }

  start-started :
      (late : Bool) (n : ℕ) (core : Core)
      → start late (record core { seq_no = n }) ≡ started late n core
  unfolding start started
  start-started late n core = ground arith

  started-IsPhased :
      (late : Bool) (n : ℕ) (core : Core)
      → core.is_pass_pre_prepare ≡ false
      → IsPhased out env.chain core
      → IsPhased out env.chain (started late n core)
  unfolding started
  started-IsPhased late n core new i = record {
    prepares = i.prepares;
    commits = i.commits;
    adopted = λ h. cc;
    prepared = λ h. cc (i.prepared h).0;
    committed = λ h. cc ((i.prepared (i.committed h).0).0);
  }

  -- The primary's own batch keeps an instance in order that has adopted no batch before.
  pub handle_request_batch-IsPhased :
      (late : Bool) (n : ℕ) (batch : RequestBatch) (core : Core)
      → core.is_pass_pre_prepare ≡ false
      → IsPhased out env.chain core
      → IsPhased out env.chain (handle_request_batch out env late n batch core).0
  unfolding handle_request_batch started
  handle_request_batch-IsPhased late n batch core new i = handle_pre_prepare-IsPhased _ _ (
      subst (λ c. IsPhased out env.chain (enter out env batch n c))
        (sym (start-started late n core))
        (enter-IsPhased batch n (started late n core) new (started-IsPhased late n core new i)))
