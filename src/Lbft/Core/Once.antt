-- ===== src/Lbft/Core/Once.antt =====
-- An instance sets off the announcement of its batch once at most, when it passes the commit phase.
use l.Base.{
  ℕ, ◌+◌, ◌≡◌, some, refl, true, String, List, [], ◌∷◌, ◌++◌, arith, if◌then◌else◌, string_eq,
}
use l.Vote.{add}
use l.Lbft.Message.{
  RequestBatch, PrePrepare, Prepare, Commit, Message, pre_prepare, prepare, commit,
}
use l.Lbft.Core.{
  Core, Env, Outside, Effect, new_core, handle_commit, handle_prepare, new_commit, new_prepare,
  adopt, enter, handle_pre_prepare, dispatch, broadcast_chains,
}
use l.Lbft.Core.Cases.{
  spawns, spawns-append, spawns-broadcast_chains, commit_cases, prepare_cases, pre_prepare_cases,
}
use l.Lbft.Core.Runs.{run}

abbrev done : Core → ℕ
done core = if core.is_pass_commit then 1 else 0

-- What goes out and what stood before make up what stands after.
abbrev Accounts : Core → Core × List Effect → Type 0
Accounts core r = spawns r.1 + done core ≡ done r.0

module _ (out : Outside) (env : Env) where
  commit-Accounts : (c : Commit) (core : Core) → Accounts core (handle_commit out env c core)
  commit-Accounts c core =
      commit_cases out env c core (Accounts core) (omega arith) (omega arith)
        (λ fresh pass. ground arith)

  with_broadcast :
      (core : Core) (r : Core × List Effect) (m : Message)
      → Accounts core r
      → Accounts core (r.0, r.1 ++ broadcast_chains r.0 m)
  with_broadcast core r m a =
      omega (arith, spawns-append r.1 (broadcast_chains r.0 m), spawns-broadcast_chains r.0 m, a)

  prepare-Accounts : (p : Prepare) (core : Core) → Accounts core (handle_prepare out env p core)
  prepare-Accounts p core =
      prepare_cases out env p core (Accounts core) (omega arith) (omega arith) (λ fresh pass.
        after_pass (record core {
          prepare_vote = add out.prepare_key p.replica_id p core.prepare_vote;
          is_pass_prepare = true;
        }))
    where
      after_pass :
          (passed : Core)
          → let r = handle_commit out env (new_commit out env passed) passed in
            Accounts passed (r.0, r.1 ++ broadcast_chains r.0 (commit (new_commit out env passed)))
      after_pass passed =
          with_broadcast passed (handle_commit out env (new_commit out env passed) passed)
            (commit (new_commit out env passed)) (commit-Accounts _ passed)

  adopt-Accounts : (b : RequestBatch) (core : Core) → Accounts core (adopt out env b core)
  unfolding adopt
  adopt-Accounts b core =
      let passed = record core {
        request_batch = some b;
        digest = out.hash b;
        is_pass_pre_prepare = true;
      } in
      with_broadcast core (handle_prepare out env (new_prepare out env passed) passed)
        (prepare (new_prepare out env passed))
        (prepare-Accounts (new_prepare out env passed) passed)

  pre_prepare-Accounts :
      (pp : PrePrepare) (core : Core) → Accounts core (handle_pre_prepare out env pp core)
  unfolding enter
  pre_prepare-Accounts pp core =
      pre_prepare_cases out env pp core (Accounts core) (omega arith) (λ new. omega arith)
        (λ new es none_spawned. with_effects es none_spawned)
    where
      entered : Core
      entered = enter out env pp.requests pp.seq_no core

      same : done entered ≡ done core
      same = refl

      with_effects :
          (es : List Effect)
          → spawns es ≡ 0
          → Accounts core
              ((adopt out env pp.requests entered).0, es ++ (adopt out env pp.requests entered).1)
      with_effects es none_spawned = omega (
        arith,
        spawns-append es (adopt out env pp.requests entered).1,
        none_spawned,
        adopt-Accounts pp.requests entered,
        same,
      )

  dispatch-Accounts : (m : Message) (core : Core) → Accounts core (dispatch out env m core)
  unfolding dispatch
  dispatch-Accounts (pre_prepare pp) core = pre_prepare-Accounts pp core
  dispatch-Accounts (prepare p) core = prepare-Accounts p core
  dispatch-Accounts (commit c) core = commit-Accounts c core
  dispatch-Accounts _ core = omega arith

run-Accounts :
    (out : Outside) (ms : List (Env × Message)) (core : Core) → Accounts core (run out ms core)
unfolding run
run-Accounts out [] core = omega arith
run-Accounts out ((env, m) ∷ ms) core =
    let (next, sent) = dispatch out env m core in
    omega (
      arith,
      spawns-append sent (run out ms next).1,
      dispatch-Accounts out env m core,
      run-Accounts out ms next,
    )

-- Over any list of messages a new instance sets off the announcement of its batch once if it
-- ends up with the commit phase passed, and never if not.
pub run_announces_once :
    (out : Outside) (name : String) (ms : List (Env × Message))
    → spawns (run out ms (new_core name)).1
      ≡ (if (run out ms (new_core name)).0.is_pass_commit then 1 else 0)
unfolding new_core
run_announces_once out name ms = omega (arith, run-Accounts out ms (new_core name))
