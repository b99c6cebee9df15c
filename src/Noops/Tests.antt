-- ===== src/Noops/Tests.antt =====
-- Two groups make a block, and the groups of a pool with a block size of 2 do not.
use l.Base.{pos, ◌≡◌, refl, true, false, lookup, insert, delete, List, [], ◌∷◌, arith}
use l.Transaction.{Transaction, atomic}
use l.Validator.Account.{Account}
use l.Validator.Grouping.{fetch_grouping_txs_in_tx_pool}
use l.Noops.{Noops, output, Event, start, stop, tick, run}
use l.Noops.Silent.{FromPool, run-silent}

abbrev pooled : Transaction
pooled = record {
  from_chain = "0";
  to_chain = "0";
  type = atomic;
  nonce = 1;
  sender = "amy";
  recipient = "bob";
  amount = pos 5;
  fee = pos 0;
  create_time = 0;
}

abbrev amy : Account
amy = record {
  orphans = [];
  txs_list = record { id = 0; value = pooled } ∷ [];
  txs_map = [];
  next_id = 1;
  amount = pos 20;
  nonce = 2;
  curr_tx_hash = "";
}

abbrev new_node : Noops
new_node = record { running = false; timer = false; seq_no = 0; height = 7; committed = [] }

abbrev one_tick : List Event
one_tick = start ∷ tick (λ txs. true) 5 ((pooled ∷ []) ∷ (pooled ∷ []) ∷ [] ∷ []) ∷ []

run-silent_example :
    ((run one_tick new_node).committed ≡ [])
    × ((run one_tick new_node).seq_no ≡ 0)
    × ((run one_tick new_node).height ≡ 7)
unfolding FromPool fetch_grouping_txs_in_tx_pool lookup insert delete
run-silent_example =
    run-silent (λ tx. tx.sender) "0" 2 one_tick new_node (omega arith)
      (tt, ((record { is_valid = true; accounts = ("amy", amy) ∷ [] }, refl), tt))

made_block :
    (run (start ∷ tick (λ txs. true) 5 ([] ∷ (pooled ∷ []) ∷ []) ∷ stop ∷ []) new_node).committed
    ≡ output 5 1 8 (pooled ∷ []) ∷ []
unfolding run
made_block = refl
