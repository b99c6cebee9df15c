-- ===== src/Lbft/Core/Tests.antt =====
-- Replica "b" sees a batch through: the primary "a" proposes it, and "c" votes with both.
use l.Base.{◌≡◌, refl, true, false, String, [], ◌∷◌, List, lookup, insert, if◌then◌else◌, string_eq}
use l.Vote.{add, new_vote, iter_ticket, range}
use l.Lbft.Message.{Message, RequestBatch, PrePrepare, empty_block, pre_prepare, prepare, commit}
use l.Lbft.Core.{
  Env, Outside, new_core, dispatch, handle_pre_prepare, handle_prepare, handle_commit, adopt, enter,
  verifies, is_valid, is_primary, is_illegal, new_prepare, new_commit, maybe_prepare_pass,
  maybe_commit_pass, prepared_on, committed_on, broadcast_chains,
}
use l.Lbft.Votes.{count, consider, enough, prepare_fits, commit_fits}
use l.Lbft.Core.Cases.{spawns}
use l.Lbft.Core.Phases.{IsPhased, new_core-IsPhased}
use l.Lbft.Core.Runs.{run, run-IsPhased}
use l.Lbft.Core.Once.{run_announces_once}

abbrev outside : Outside
outside = record {
  hash = λ b. "h";
  prepare_key = λ p. p.digest;
  commit_key = λ c. c.digest;
  verify_txs = λ txs primary. true;
}

abbrev env : Env
env = record { id = "b"; chain = "0"; quorum = 3; primary_id = "a"; seq_no = 0; verify_seq_no = 0 }

abbrev batch : RequestBatch
batch = record { time = 0; requests = []; id = empty_block; index = 0; height = 2 }

abbrev proposal : PrePrepare
proposal = record {
  name = "x";
  primary_id = "a";
  chain = "0";
  replica_id = "a";
  seq_no = 1;
  requests = batch;
}

abbrev prepare_of : String → Message
prepare_of who = prepare (record {
  name = "x";
  primary_id = "a";
  chain = "0";
  replica_id = who;
  seq_no = 1;
  digest = "h";
  quorum = 3;
})

abbrev commit_of : String → Message
commit_of who = commit (record {
  name = "x";
  primary_id = "a";
  chain = "0";
  replica_id = who;
  seq_no = 1;
  digest = "h";
  quorum = 3;
})

abbrev messages : List (Env × Message)
messages =
    (env, pre_prepare proposal)
    ∷ (env, prepare_of "a")
    ∷ (env, prepare_of "c")
    ∷ (env, commit_of "a")
    ∷ (env, commit_of "c")
    ∷ []

run-IsPhased_example : IsPhased outside "0" (run outside messages (new_core "x")).0
run-IsPhased_example =
    run-IsPhased outside "0" messages (new_core "x") (refl, (refl, (refl, (refl, (refl, tt)))))
      (new_core-IsPhased outside "0" "x")

run_announces_once_example :
    spawns (run outside messages (new_core "x")).1
    ≡ (if (run outside messages (new_core "x")).0.is_pass_commit then 1 else 0)
run_announces_once_example = run_announces_once outside "x" messages

-- The messages are enough: the commit phase is passed.
batch_committed : (run outside messages (new_core "x")).0.is_pass_commit ≡ true
unfolding run dispatch handle_pre_prepare handle_prepare handle_commit adopt enter verifies is_valid
    is_primary is_illegal new_prepare new_commit maybe_prepare_pass maybe_commit_pass prepared_on
    committed_on prepare_fits commit_fits enough count consider iter_ticket range new_core new_vote
    add lookup insert broadcast_chains
batch_committed = refl

nothing_adopted : (new_core "x").is_pass_pre_prepare ≡ false
unfolding new_core
nothing_adopted = refl
