-- ===== src/Validator/Grouping/Tests.antt =====
-- Three pooled transactions to two chains, in groups of at most one.
use mathlib.Core.List.{Perm}
use l.Base.{
  ℕ, pos, ◌≡◌, refl, true, some, String, List, [], ◌∷◌, All, length, arith, insert, lookup, delete,
}
use l.Transaction.{Transaction, atomic}
use l.Validator.Account.{Account}
use l.Validator.Accounts.{Validator}
use l.Validator.Grouping.{fetch_grouping_txs_in_tx_pool}
use l.Validator.Grouping.Parts.{Groups, flat}
use l.Validator.Grouping.Fetches.{SomeGroup, fetch_grouping_txs_in_tx_pool_lem}

abbrev bound_for : String → ℕ → Transaction
bound_for chain n = record {
  from_chain = "0";
  to_chain = chain;
  type = atomic;
  nonce = n;
  sender = "amy";
  recipient = "bob";
  amount = pos 5;
  fee = pos 0;
  create_time = 0;
}

abbrev amy : Account
amy = record {
  orphans = [];
  txs_list =
      record { id = 0; value = bound_for "0" 1 }
      ∷ record { id = 1; value = bound_for "1" 2 }
      ∷ record { id = 2; value = bound_for "0" 3 }
      ∷ [];
  txs_map = [];
  next_id = 3;
  amount = pos 20;
  nonce = 4;
  curr_tx_hash = "";
}

abbrev amy_only : Validator
amy_only = record { is_valid = true; accounts = ("amy", amy) ∷ [] }

abbrev to_chain_hash : Transaction → String
to_chain_hash tx = tx.to_chain

fetch_grouping_txs_in_tx_pool_lem_example :
    (fetched : List Transaction) × (gs : Groups) × ((fetch_grouping_txs_in_tx_pool to_chain_hash "0"
        2 1 amy_only).1
      ≡ some (fetched ∷ gs))
    × (length gs ≡ 2)
    × All (SomeGroup 1) gs
    × Perm fetched (flat gs)
fetch_grouping_txs_in_tx_pool_lem_example =
    fetch_grouping_txs_in_tx_pool_lem to_chain_hash "0" 2 1 amy_only (omega arith)

two_fetched :
    (fetch_grouping_txs_in_tx_pool to_chain_hash "0" 2 1 amy_only).1
    ≡ some (
        (bound_for "0" 1 ∷ bound_for "1" 2 ∷ [])
        ∷ (bound_for "0" 1 ∷ [])
        ∷ (bound_for "1" 2 ∷ [])
        ∷ [])
unfolding fetch_grouping_txs_in_tx_pool lookup insert delete
two_fetched = refl
