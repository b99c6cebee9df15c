-- ===== src/Merge/TxMerge/Tests.antt =====
-- Two transactions against each other: 5 one way and 8 the other leave 3.
use l.Base.{
  ℕ, pos, negsuc, ◌-ℤ◌, ◌≡◌, refl, All, String, some, List, [], ◌∷◌, lookup, insert, string_eq,
}
use l.Transaction.{Transaction, across_chain}
use l.Merge.Storage.{new_storage}
use l.Merge.TxMerge.{TxMerge, MergedTx, net_txs, parent, get_backup_txs, merger_tx}
use l.Merge.TxMerge.Settles.{IsNetted}
use l.Merge.TxMerge.Made.{TxHas, IsSettled, merger_tx-IsSettled}

abbrev transfer_of : String → String → ℕ → Transaction
transfer_of from to coins = record {
  from_chain = from;
  to_chain = to;
  type = across_chain;
  nonce = 1;
  sender = "a";
  recipient = "b";
  amount = pos coins;
  fee = pos 1;
  create_time = 7;
}

abbrev there_and_back : List Transaction
there_and_back = transfer_of "0001" "0002" 5 ∷ transfer_of "0002" "0001" 8 ∷ []

nets_to_three :
    net_txs (λ tx. tx.from_chain) there_and_back []
    ≡ (
      ("0001", "0002"),
      record { amount = negsuc 2; fee = pos 0; tx_time = 7; txs_hash = "0001" ∷ "0002" ∷ [] },
    )
      ∷ []
unfolding net_txs lookup insert ◌-ℤ◌
nets_to_three = refl

parent_of : parent "0001" ≡ some "00"
unfolding parent
parent_of = refl

parent_of_two : parent "0002" ≡ some "00"
unfolding parent
parent_of_two = refl

abbrev all_have : All TxHas there_and_back
all_have =
    ((("00", parent_of), ("00", parent_of_two)), ((("00", parent_of_two), ("00", parent_of)), tt))

abbrev nothing_sent : TxMerge
nothing_sent = record { storage = new_storage [] [] []; backup_txs = []; sent = []; broadcast = [] }

merger_tx-IsSettled_example :
    (tm' : TxMerge) × (made : List MergedTx) × (dst : String) × (merger_tx "0001"
        (λ c. c)
        (λ tx. tx.from_chain)
        (λ t. t.signature)
        there_and_back
        nothing_sent
      ≡ some tm')
    × (parent "0001" ≡ some dst)
    × (tm'.sent ≡ (dst, record { repeat_merge_txs = []; merge_txs = made }) ∷ [])
    × IsSettled "0001" (λ c. c) (λ tx. tx.from_chain) (λ t. t.signature) there_and_back made
    × IsNetted
        (λ tx. tx.from_chain)
        there_and_back
        (net_txs (λ tx. tx.from_chain) there_and_back [])
unfolding get_backup_txs
merger_tx-IsSettled_example =
    merger_tx-IsSettled "0001" (λ c. c) (λ tx. tx.from_chain) (λ t. t.signature)
      (transfer_of "0001" "0002" 5) (transfer_of "0002" "0001" 8 ∷ []) nothing_sent
      ("00", parent_of) all_have
