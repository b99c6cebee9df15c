-- ===== src/Lbft/Core.antt =====
-- core/consensus/lbft/lbft-core.go: one instance of the consensus on one request batch.
-- Prepare and commit votes are counted in ballot boxes (`Vote`), whose keys are parameters, as is
-- the hash of a batch. What a handler sends is a list of effects in order. `prePrepareAsync.wait`
-- and `waitForVerify` block until the batch before is done: a handler runs when they have returned.
-- An IterTicket over a nil ticket would panic: a ballot box in order holds none (`IsTally.known`).
pub mod Cases
pub mod Certificate
pub mod Phases
pub mod Runs
pub mod Once
mod Tests
use l.Base.{
  ℕ, suc, ◌+◌, ◌%◌, ◌^◌, ◌<◌, Bool, true, false, not, ◌&&◌, ◌||◌, String, Option, none, some, List,
  [], ◌∷◌, ◌++◌, ltb, leb, eqb, if◌then◌else◌, string_eq, ◌==◌,
}
use l.Transaction.{Transaction}
use l.Vote.{Vote, iter_ticket, add, new_vote}
use l.Lbft.Votes.{count, enough, prepare_fits, commit_fits}
use l.Lbft.Message.{
  RequestBatch, PrePrepare, Prepare, Commit, Committed, Message, empty_block, min_quorum,
  from_chain, to_chain, request_batch, pre_prepare, prepare, commit, committed,
}

-- What an instance reads of its replica: the options, the primary, and the counters.
pub record Env : Type 0 where
  pub id : String
  pub chain : String
  pub quorum : ℕ  -- options.Q
  pub primary_id : String
  pub seq_no : ℕ
  pub verify_seq_no : ℕ

pub record Core : Type 0 where
  pub name : String
  pub prepare_vote : Vote Prepare
  pub commit_vote : Vote Commit
  pub is_pass_pre_prepare : Bool
  pub is_pass_prepare : Bool
  pub is_pass_commit : Bool
  pub request_batch : Option RequestBatch
  pub from_chain : String
  pub to_chain : String
  pub seq_no : ℕ
  pub digest : String
  pub is_running : Bool

unfoldable pub new_core : String → Core
unfolding new_vote
new_core name = record {
  name = name;
  prepare_vote = new_vote;
  commit_vote = new_vote;
  is_pass_pre_prepare = false;
  is_pass_prepare = false;
  is_pass_commit = false;
  request_batch = none;
  from_chain = "";
  to_chain = "";
  seq_no = 0;
  digest = "";
  is_running = false;
}

-- The serializations that the instance hashes, and the verification of a batch by the pool.
pub record Outside : Type 0 where
  pub hash : RequestBatch → String
  pub prepare_key : Prepare → String
  pub commit_key : Commit → String
  pub verify_txs : List Transaction → Bool → Bool

pub data Effect : Type 0 where
  broadcast : String → Message → Effect
  -- the goroutine that waits for `commitAsync` and then announces the batch
  spawn_commit : Effect
  -- `incrVerifySeqNum`
  incr_verify : Effect
  reset_empty_block_timer : Effect
  soft_reset_empty_block_timer : Effect

unfoldable pub prepared_on : String → Core → String → Bool
prepared_on own core chain =
    enough
      (count (prepare_fits own core.digest core.seq_no chain) (λ p. p.quorum) core.prepare_vote)

unfoldable pub committed_on : String → Core → String → Bool
committed_on own core chain =
    enough (count (commit_fits own core.digest core.seq_no chain) (λ c. c.quorum) core.commit_vote)

-- `own` is the replica's chain.
unfoldable pub maybe_prepare_pass : String → Core → Core × Bool
maybe_prepare_pass own core =
    if not core.is_pass_pre_prepare
    then (core, false)
    else if not (prepared_on own core core.from_chain)
    then (core, false)
    else if not (core.from_chain == core.to_chain) && not (prepared_on own core core.to_chain)
    then (core, false)
    else (record core { is_pass_prepare = true }, true)

unfoldable pub maybe_commit_pass : String → Core → Core × Bool
maybe_commit_pass own core =
    if not core.is_pass_prepare
    then (core, false)
    else if not (committed_on own core core.from_chain)
    then (core, false)
    else if not (core.from_chain == core.to_chain) && not (committed_on own core core.to_chain)
    then (core, false)
    else (record core { is_pass_commit = true }, true)

-- `instance.broadcast`: to the chain of origin, and to the other chain if there is one.
unfoldable pub broadcast_chains : Core → Message → List Effect
broadcast_chains core msg =
    broadcast core.from_chain msg
    ∷ (if core.from_chain == core.to_chain then [] else broadcast core.to_chain msg ∷ [])

-- `start`; `late` says that more than the block timeout has passed since the instance was made.
unfoldable pub start : Bool → Core → Core
start late core =
    if core.is_running then core else if late then core else record core { is_running = true }

unfoldable pub stop : Core → Core
stop core = if not core.is_running then core else record core { is_running = false }

pub is_cross : Core → Bool
is_cross core = not (core.from_chain == core.to_chain)

-- `Lbft.isPrimary` and `Lbft.isValid`, as an instance calls them.
unfoldable pub is_primary : Env → Bool
is_primary env = env.id == env.primary_id

no_requests : List Transaction → Bool
no_requests [] = true
no_requests (tx ∷ txs) = false

unfoldable pub is_valid : Env → RequestBatch → Bool → Bool
unfolding no_requests
is_valid env batch true =
    if eqb batch.id empty_block && no_requests batch.requests
    then true
    else from_chain batch == env.chain
is_valid env batch false = if eqb batch.id empty_block then false else to_chain batch == env.chain

-- A vote that reaches an instance after its PrePrepare must be for its chains, number and digest.
unfoldable pub is_illegal : Env → Core → String → ℕ → String → Bool
is_illegal env core chain seq_no digest =
    core.is_pass_pre_prepare
    && ((not (chain == core.from_chain) && not (chain == core.to_chain))
        || (chain == env.chain && not (eqb seq_no core.seq_no))
        || not (digest == core.digest))

module _ (out : Outside) (env : Env) where
  unfoldable pub handle_commit : Commit → Core → Core × List Effect
  handle_commit c core =
      let voted = record core {
        commit_vote = add out.commit_key c.replica_id c core.commit_vote;
      } in
      let (passed, pass) = maybe_commit_pass env.chain voted in
      if is_illegal env core c.chain c.seq_no c.digest
      then (core, [])
      else if core.is_pass_commit
      then (voted, [])
      else if pass
      then (passed, spawn_commit ∷ [])
      else (passed, [])

  unfoldable pub new_commit : Core → Commit
  new_commit core = record {
    name = core.name;
    primary_id = env.primary_id;
    chain = env.chain;
    replica_id = env.id;
    seq_no = core.seq_no;
    digest = core.digest;
    quorum = env.quorum;
  }

  unfoldable pub handle_prepare : Prepare → Core → Core × List Effect
  handle_prepare p core =
      let voted = record core {
        prepare_vote = add out.prepare_key p.replica_id p core.prepare_vote;
      } in
      let (passed, pass) = maybe_prepare_pass env.chain voted in
      let (after, sent) = handle_commit (new_commit passed) passed in
      if is_illegal env core p.chain p.seq_no p.digest
      then (core, [])
      else if core.is_pass_prepare
      then (voted, [])
      else if pass
      then (after, sent ++ broadcast_chains after (commit (new_commit passed)))
      else (passed, [])

  unfoldable pub new_prepare : Core → Prepare
  new_prepare core = record {
    name = core.name;
    primary_id = env.primary_id;
    chain = env.chain;
    replica_id = env.id;
    seq_no = core.seq_no;
    digest = core.digest;
    quorum = env.quorum;
  }

  -- What stands behind the checks of `handlePrePrepare`: the batch is adopted and a vote sent.
  unfoldable pub adopt : RequestBatch → Core → Core × List Effect
  adopt batch core =
      let passed = record core {
        request_batch = some batch;
        digest = out.hash batch;
        is_pass_pre_prepare = true;
      } in
      let (after, sent) = handle_prepare (new_prepare passed) passed in
      (after, sent ++ broadcast_chains after (prepare (new_prepare passed)))

  -- The closure that a replica which is not the primary runs in its turn: does the batch verify?
  unfoldable pub verifies : RequestBatch → Core → Bool
  verifies batch core =
      if not (eqb batch.id empty_block)
        && eqb batch.index 0
        && env.chain == core.from_chain
        && ltb env.seq_no core.seq_no
      then out.verify_txs batch.requests false
      else true

  -- The chains of the batch and its number are written down before any check.
  unfoldable pub enter : RequestBatch → ℕ → Core → Core
  enter batch seq_no core = record core {
    from_chain = if eqb batch.id empty_block then env.chain else from_chain batch;
    to_chain = if eqb batch.id empty_block then env.chain else to_chain batch;
    seq_no = seq_no;
  }

  unfoldable pub handle_pre_prepare : PrePrepare → Core → Core × List Effect
  handle_pre_prepare pp core =
      let batch = pp.requests in
      let entered = enter batch pp.seq_no core in
      let (after, sent) = adopt batch entered in
      if core.is_pass_pre_prepare
      then (core, [])
      else if not (is_primary env)
      then (if not (is_valid env batch (entered.from_chain == env.chain))
          then (entered, [])
          else if not (verifies batch entered)
          then (entered, [])
          else (after, incr_verify ∷ sent))
      else if eqb batch.id empty_block
      then (after, sent)
      else if entered.to_chain == entered.from_chain
      then (after, reset_empty_block_timer ∷ sent)
      else (after, soft_reset_empty_block_timer ∷ sent)

  unfoldable pub new_pre_prepare : RequestBatch → Core → PrePrepare
  new_pre_prepare batch core = record {
    name = core.name;
    primary_id = env.id;
    chain = env.chain;
    replica_id = env.id;
    seq_no = core.seq_no;
    requests = batch;
  }

  -- The primary's own batch. The result of its verification is thrown away.
  unfoldable pub handle_request_batch : Bool → ℕ → RequestBatch → Core → Core × List Effect
  handle_request_batch late seq_no batch core =
      let started = enter batch seq_no (start late (record core { seq_no = seq_no })) in
      let forward =
        if not (started.from_chain == started.to_chain) && started.from_chain == env.chain
        then broadcast started.to_chain (request_batch batch) ∷ []
        else [] in
      let (after, sent) = handle_pre_prepare (new_pre_prepare batch started) started in
      (
        after,
        forward
            ++ ((incr_verify ∷ sent)
                ++ (broadcast env.chain (pre_prepare (new_pre_prepare batch started)) ∷ [])),
      )

  -- The `switch` of the instance's loop.
  unfoldable pub dispatch : Message → Core → Core × List Effect
  dispatch (pre_prepare pp) core = handle_pre_prepare pp core
  dispatch (prepare p) core = handle_prepare p core
  dispatch (commit c) core = handle_commit c core
  dispatch _ core = (core, [])

  -- The goroutine that `handleCommit` starts, when its turn in `commitAsync` has come.
  unfoldable pub announce : RequestBatch → Core → List Message
  announce batch core =
      if core.is_running
      then committed (record {
        name = core.name;
        chain = env.chain;
        replica_id = env.id;
        seq_no = core.seq_no;
        request_batch = batch;
      })
        ∷ []
      else []
