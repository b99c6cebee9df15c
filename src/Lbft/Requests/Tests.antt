-- ===== src/Lbft/Requests/Tests.antt =====
-- The primary "a" submits three groups, of which the second is empty.
use l.Base.{ℕ, pos, ◌≡◌, refl, true, false, List, [], ◌∷◌, ◌+◌, length, arith}
use l.Transaction.{Transaction, atomic}
use l.Lbft.Message.{from_chain}
use l.Lbft.Core.{is_primary}
use l.Lbft.Requests.{Requests, batch_of, submit_request_batches}
use l.Lbft.Requests.Numbered.{
  batches_of, some_group, valid_batches, in_turn, submit_request_batches-in_turn,
}

abbrev payment : ℕ → Transaction
payment n = record {
  from_chain = "0";
  to_chain = "0";
  type = atomic;
  nonce = n;
  sender = "s";
  recipient = "r";
  amount = pos 5;
  fee = pos 0;
  create_time = n;
}

abbrev groups : List (List Transaction)
groups = (payment 7 ∷ payment 9 ∷ []) ∷ [] ∷ (payment 8 ∷ []) ∷ []

abbrev idle_primary : Requests
idle_primary = record {
  env = record {
    id = "a";
    chain = "0";
    quorum = 3;
    primary_id = "a";
    seq_no = 0;
    verify_seq_no = 0;
  };
  counters = record {
    last_height = 3;
    height = 3;
    exec_seq_no = 5;
    last_seq_no = 5;
    seq_no = 5;
    verify_seq_no = 5;
  };
  cores = [];
  launched = [];
}

submit_request_batches-in_turn_example :
    let s' = submit_request_batches (λ b. "h") 1 groups idle_primary in
    let valid = valid_batches idle_primary.env (batches_of 1 0 4 groups) in
    (is_primary idle_primary.env ≡ true
      → (s'.launched ≡ in_turn 5 valid)
        × (s'.counters.seq_no ≡ 5 + length valid)
        × (s'.counters.height ≡ 4))
    × (is_primary idle_primary.env ≡ false → s' ≡ idle_primary)
unfolding some_group
submit_request_batches-in_turn_example =
    submit_request_batches-in_turn (λ b. "h") 1 groups idle_primary (omega arith) (omega arith)

-- Both batches are launched, with the numbers 6 and 7.
launched_groups :
    (submit_request_batches (λ b. "h") 1 groups idle_primary).launched
    ≡ (6, batch_of 1 0 4 (payment 7 ∷ payment 9 ∷ [])) ∷ (7, batch_of 1 2 4 (payment 8 ∷ [])) ∷ []
unfolding submit_request_batches from_chain
launched_groups = refl
