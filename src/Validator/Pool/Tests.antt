-- ===== src/Validator/Pool/Tests.antt =====
-- A block with a total of the own chain, a batch of another chain and one of the own.
use l.Base.{pos, ◌≡◌, String, [], ◌∷◌, List}
use l.Transaction.{Transaction, atomic}
use l.Lbft.Message.{from_chain}
use l.Lbft.Blocks.{CommittedRequestBatch, outputs_from}
use l.Validator.Pool.Delivers.{
  classify-outputs_from, Adds, first_own, own_requests, foreign_requests, all_requests,
  without_first_own,
}
use l.Validator.Pool.{no_outputs, classify}

abbrev gift : String → String → Transaction
gift alice chain = record {
  from_chain = chain;
  to_chain = "0";
  type = atomic;
  nonce = 1;
  sender = alice;
  recipient = "bob";
  amount = pos 5;
  fee = pos 0;
  create_time = 0;
}

abbrev batch_of : List Transaction → CommittedRequestBatch
batch_of txs = record {
  request_batch = record { time = 9; requests = txs; id = 1; index = 0; height = 3 };
  seq_no = 4;
}

abbrev delivered : List CommittedRequestBatch
delivered =
    batch_of (gift "amy" "0" ∷ gift "bob" "0" ∷ [])
    ∷ batch_of (gift "cat" "1" ∷ [])
    ∷ batch_of (gift "amy" "0" ∷ [])
    ∷ []

classify-outputs_from_example :
    Adds no_outputs
      (classify (outputs_from "0" 0 delivered) no_outputs)
      (first_own "0" delivered)
      (own_requests "0" (without_first_own "0" delivered))
      (foreign_requests "0" delivered)
      (all_requests (without_first_own "0" delivered))
classify-outputs_from_example = classify-outputs_from "0" delivered

two_written :
    (classify (outputs_from "0" 0 delivered) no_outputs).committed
    ≡ gift "cat" "1" ∷ gift "amy" "0" ∷ []
unfolding from_chain
two_written = (classify-outputs_from "0" delivered).3
