-- ===== src/Lbft/Instances/Tests.antt =====
-- A replica that has executed number 3 and knows nothing of the batch that was committed under 4.
use l.Base.{
  ◌≡◌, ◌≤◌, ◌<◌, ◌+◌, ◌*◌, ◌^◌, refl, none, String, [], All, arith, lookup, insert, nat_eq,
  string_eq,
}
use l.Lbft.Message.{RequestBatch}
use l.Lbft.Checkpoint.{sorted_keys, start_exec, insert_key}
use l.Lbft.Instances.{Arrivals, add_committed_request_batch}
use l.Lbft.Instances.Arrives.{IsSmall, Arrived, add_committed_request_batch-Arrived}

abbrev constant_hash : RequestBatch → String
constant_hash b = "h"

abbrev committed_batch : RequestBatch
committed_batch = record { time = 1; requests = []; id = 9; index = 0; height = 2 }

abbrev at_three : Arrivals
at_three = record {
  instances = record { cores = []; concurrent_cnt_to = 0 };
  batches = [];
  counters = record {
    last_height = 1;
    height = 1;
    exec_seq_no = 3;
    last_seq_no = 3;
    seq_no = 3;
    verify_seq_no = 3;
  };
}

at_three-IsSmall : IsSmall at_three.counters
at_three-IsSmall = record { height = omega arith; last = omega arith; verified = omega arith }

four_new : lookup 4 at_three.batches ≡ none
unfolding lookup
four_new = refl

four_far : All (λ x. x + 20 + 1 < 2 ^ 64) (sorted_keys (insert 4 committed_batch at_three.batches))
unfolding sorted_keys insert insert_key
four_far = (omega arith, tt)

four_room :
    start_exec (sorted_keys (insert 4 committed_batch at_three.batches)) 3 + 2 * 20 + 3 < 2 ^ 64
unfolding sorted_keys insert insert_key start_exec
four_room = omega arith

four_window :
    All
      (λ x. x ≤ start_exec (sorted_keys (insert 4 committed_batch at_three.batches)) 3 + 20 + 1)
      (sorted_keys (insert 4 committed_batch at_three.batches))
unfolding sorted_keys insert insert_key start_exec
four_window = (omega arith, tt)

add_committed_request_batch-Arrived_example :
    Arrived constant_hash 4 committed_batch at_three
      (add_committed_request_batch constant_hash 20 4 committed_batch at_three)
add_committed_request_batch-Arrived_example =
    add_committed_request_batch-Arrived constant_hash 20 4 committed_batch at_three four_new tt
      (omega arith) (omega arith) at_three-IsSmall four_far four_room four_window
