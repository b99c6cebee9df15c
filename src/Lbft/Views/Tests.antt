-- ===== src/Lbft/Views/Tests.antt =====
-- Two replicas have voted for "b"; a third ticket for "b", with lower numbers, gets theirs.
use l.Base.{ℕ, ◌≡◌, refl, false, String, some, [], ◌∷◌, lookup, insert, arith, string_eq}
use l.Lbft.Message.{ViewChange, Committed, RequestBatch}
use l.Lbft.Checkpoint.{checkpoint, far_behind, sorted_keys, insert_key, loop, start_exec, write}
use l.Lbft.Counters.{update_verify_seq_no, update_last_seq_no, update_last_height_num}
use l.Lbft.Instances.{add_committed_request_batch}
use l.Lbft.Views.{Views, drain_all}
use l.Lbft.Views.Order.{IsSound}
use l.Lbft.Views.Events.{Event, step}
use l.Lbft.Views.Sound.{Drains, step-IsSound}

abbrev ticket_of : String → ℕ → ℕ → ViewChange
ticket_of who seq height = record {
  replica_id = who;
  chain = "00";
  priority = 1;
  primary_id = "b";
  seq_no = seq;
  height = height;
  opt_hash = "h";
}

abbrev two_voted : Views
two_voted = record {
  id = "a";
  chain = "00";
  opt_hash = "h";
  priority = 1;
  quorum = 3;
  primary_id = "";
  last_primary_id = "";
  voted_cnt = 0;
  box = record {
    tickets = ("b", 0) ∷ ("c", 1) ∷ [];
    hashes = ("00b", 0) ∷ [];
    statistics = ("00b", 2) ∷ [];
  };
  heap = λ r. ticket_of "b" 5 3;
  next_ref = 2;
  counters = record {
    last_height = 3;
    height = 3;
    exec_seq_no = 5;
    last_seq_no = 5;
    seq_no = 5;
    verify_seq_no = 5;
  };
  cores = [];
  pre_prepare_async = record { start = 0; seq_no = []; closed = []; next_id = 0 };
  commit_async = record { start = 0; seq_no = []; closed = []; next_id = 0 };
  concurrent_cnt_to = 0;
  batches = [];
  waiting = [];
  checked = [];
  sent = [];
  null_sent = [];
  starts = false;
}

two_voted-IsSound : IsSound two_voted
unfolding lookup
two_voted-IsSound = record {
  agreed = record { common = λ p. (5, 3); held = (refl, (refl, tt)) };
  below = (omega arith, (omega arith, tt));
  tickets = λ hash missing. ground (arith, missing);
  positive = omega arith;
}

-- The replica's own vote waits for the next batch, which has come.
abbrev sixth : Committed
sixth = record {
  name = "x";
  chain = "00";
  replica_id = "b";
  seq_no = 6;
  request_batch = record { time = 1; requests = []; id = 9; index = 0; height = 4 };
}

abbrev one_waits : Views
one_waits = record two_voted { waiting = sixth ∷ [] }

abbrev no_hash : RequestBatch → String
no_hash b = "h"

one_waits-Drains : Drains no_hash 20 one_waits
unfolding drain_all add_committed_request_batch lookup checkpoint far_behind sorted_keys insert
    insert_key loop start_exec update_verify_seq_no update_last_seq_no update_last_height_num write
one_waits-Drains = (_, refl)

step-IsSound_example :
    (w' : Views) × (step (λ chain primary. primary) 7 no_hash 20 Event.period_timer one_waits
      ≡ some w')
    × IsSound w'
step-IsSound_example =
    step-IsSound (λ chain primary. primary) 7 no_hash 20 Event.period_timer one_waits refl
      one_waits-Drains two_voted-IsSound
