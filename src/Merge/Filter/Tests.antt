-- ===== src/Merge/Filter/Tests.antt =====
-- Two of three peers make more than half.
use l.Base.{
  pos, ◌≡◌, refl, false, String, [], ◌∷◌, length, arith, lookup, insert, delete, string_eq, pair_eq,
}
use l.Transaction.{Transaction, merged}
use l.Merge.Filter.{ChainCacheTable, new_chain_cache_table, add_merge_txs}
use l.Merge.Filter.Majority.{IsTallied, new_chain_cache_table-IsTallied, add_merge_txs-IsTallied}

abbrev merged_tx : Transaction
merged_tx = record {
  from_chain = "00";
  to_chain = "00";
  type = merged;
  nonce = 0;
  sender = "a";
  recipient = "b";
  amount = pos 3;
  fee = pos 0;
  create_time = 7;
}

abbrev by_recipient : Transaction → String
by_recipient tx = tx.recipient

upload_from : String → ChainCacheTable → ChainCacheTable
unfolding add_merge_txs
upload_from peer cct =
    add_merge_txs by_recipient (λ chains chain. false) [] 3 "0001" peer [] (merged_tx ∷ []) cct

two_of_three :
    length (upload_from "p" (upload_from "q" (upload_from "q" new_chain_cache_table))).sent_back ≡ 1
unfolding upload_from lookup insert delete
two_of_three = refl

add_merge_txs-IsTallied_example : IsTallied by_recipient 3 (
    add_merge_txs by_recipient
      (λ chains chain. false)
      []
      3
      "0001"
      "p"
      []
      (merged_tx ∷ [])
      new_chain_cache_table)
add_merge_txs-IsTallied_example =
    add_merge_txs-IsTallied by_recipient 3 (omega arith) "0001" "p" (λ chains chain. false) [] []
      (merged_tx ∷ []) new_chain_cache_table (new_chain_cache_table-IsTallied by_recipient 3)
