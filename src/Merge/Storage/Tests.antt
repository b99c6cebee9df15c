-- ===== src/Merge/Storage/Tests.antt =====
-- Three transactions, of the times 10 and 30, classified and then taken out with a delay of 5.
use l.Base.{true, ℕ, pos, ◌+◌, ◌*◌, ◌^◌, ◌<◌, ◌≡◌, ◌≢◌, refl, List, [], ◌∷◌, lookup, arith, nat_eq}
use l.Transaction.{Transaction, across_chain}
use l.Lbft.Checkpoint.{insert_key}
use l.Merge.Storage.{
  Storage, classified_transaction, sort_times, check_txs_is_enough, first_time,
  get_merged_transaction,
}
use l.Merge.Storage.Classified.{IsClassified, classified_transaction-IsClassified}
use l.Merge.Storage.Drains.{AreDistinct, Drained, get_merged_transaction-Drained}

abbrev sent_at : ℕ → ℕ → Transaction
sent_at time nonce = record {
  from_chain = "0001";
  to_chain = "0002";
  type = across_chain;
  nonce = nonce;
  sender = "a";
  recipient = "b";
  amount = pos 3;
  fee = pos 0;
  create_time = time;
}

abbrev empty_storage : Storage
empty_storage = record {
  time_array = [];
  m = [];
  stored_times = [];
  stored_txs = [];
  stored_hashes = [];
}

abbrev three_txs : List Transaction
three_txs = sent_at 30 1 ∷ sent_at 10 2 ∷ sent_at 10 3 ∷ []

classified_transaction-IsClassified_example :
    IsClassified three_txs empty_storage (classified_transaction three_txs empty_storage)
classified_transaction-IsClassified_example =
    classified_transaction-IsClassified three_txs empty_storage tt

abbrev two_times : Storage
two_times = record empty_storage {
  stored_times = 30 ∷ 10 ∷ [];
  stored_txs = (30, sent_at 30 1 ∷ []) ∷ (10, sent_at 10 2 ∷ sent_at 10 3 ∷ []) ∷ [];
}

two_times-AreDistinct : AreDistinct two_times.stored_times
two_times-AreDistinct = ((omega arith, tt), (tt, tt))

far_ahead : check_txs_is_enough 5 (sort_times two_times.stored_times) ≡ true
unfolding check_txs_is_enough sort_times insert_key
far_ahead = refl

room : first_time (sort_times two_times.stored_times) + 2 * 5 < 2 ^ 32
unfolding sort_times insert_key
room = omega arith

get_merged_transaction-Drained_example :
    Drained
      (first_time (sort_times two_times.stored_times) + 5)
      (sort_times two_times.stored_times)
      two_times
      (get_merged_transaction 5 two_times)
    × ((get_merged_transaction 5 two_times).1.stored_times ≢ [])
get_merged_transaction-Drained_example =
    get_merged_transaction-Drained 5 two_times two_times-AreDistinct far_ahead room

takes_oldest : (get_merged_transaction 5 two_times).0 ≡ sent_at 10 2 ∷ sent_at 10 3 ∷ []
unfolding get_merged_transaction insert_key lookup
takes_oldest = refl
