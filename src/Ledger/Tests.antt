-- ===== src/Ledger/Tests.antt =====
-- A block with a contract that pays one of the paid coins on, and a transfer.
use l.Base.{
  ℕ, pos, negsuc, ◌+ℤ◌, ◌≡◌, refl, true, false, String, some, none, List, [], ◌∷◌, ◌++◌, arith,
  lookup, insert, ◌-ℤ◌,
}
use l.Transaction.{Transaction, TxType, atomic, issue, contract_invoke}
use l.State.{Balance, absent, present, Result, ok, WriteBatch, Cache, transfer, get_balance}
use l.Ledger.{
  Chain, Machine, World, Acc, no_acc, holds, execute_txs, and_then, by_type, execute_issue_tx,
  execute_transaction, commited_tranaction,
}
use l.Ledger.Sync.{execute_transaction-sync}
use l.Ledger.Written.{Written, Takes, is_put}
use l.Ledger.Store.{written}
use l.Ledger.Replay.{Apart}
use l.State.Views.{view}
use l.Ledger.Commits.{commited_tranaction-Written}

abbrev move : TxType → String → String → Transaction
move type sender recipient = record {
  from_chain = "0";
  to_chain = "0";
  type = type;
  nonce = 1;
  sender = sender;
  recipient = recipient;
  amount = pos 5;
  fee = pos 0;
  create_time = 0;
}

abbrev small_chain : Chain
small_chain = record {
  own = "0";
  address = λ c. c;
  signer = λ tx. tx.sender;
  hash = λ tx. tx.recipient;
  stored = λ a. present (record { amount = pos 100; nonce = 0 });
}

-- The contract counts its runs.
abbrev paying : Machine ℕ
paying = record {
  execute = λ tx tmp n. (tmp, n, some (move atomic tx.recipient "dan" ∷ []));
  changes = λ n. (n, ok []);
}

abbrev start : World ℕ
start = record { tmp = []; validator = none; contract = 0 }

abbrev two_txs : List Transaction
two_txs = move contract_invoke "amy" "shop" ∷ move atomic "bob" "cat" ∷ []

abbrev with_coins : ℕ → ℕ → Balance
with_coins coins nonce = record { amount = pos coins; nonce = nonce }

-- What the contract makes, and the puts of the block.
abbrev block_acc : Acc
block_acc = record {
  batches =
      ("amy", with_coins 95 1)
      ∷ ("shop", with_coins 105 0)
      ∷ ("shop", with_coins 100 1)
      ∷ ("dan", with_coins 105 0)
      ∷ ("bob", with_coins 95 1)
      ∷ ("cat", with_coins 105 0)
      ∷ [];
  generated = [];
  appended = move atomic "shop" "dan" ∷ [];
}

packed :
    execute_txs small_chain paying true two_txs no_acc start
    ≡ ((execute_txs small_chain paying true two_txs no_acc start).0, ok block_acc)
unfolding execute_txs and_then transfer lookup ◌-ℤ◌ insert ◌+ℤ◌
packed = refl

none_twice : Apart small_chain.hash block_acc.appended two_txs
unfolding holds
none_twice = (refl, (refl, tt))

execute_transaction-sync_example :
    execute_transaction small_chain paying false (two_txs ++ (move atomic "shop" "dan" ∷ [])) start
    ≡ execute_transaction small_chain paying true two_txs start
execute_transaction-sync_example =
    execute_transaction-sync small_chain paying two_txs start
      (execute_txs small_chain paying true two_txs no_acc start).0 block_acc packed none_twice
      (refl, tt)

-- An issue, which is not checked, leaves its sender a debt of 5.
abbrev poor_chain : Chain
poor_chain = record small_chain { stored = λ a. absent }

abbrev issued : Cache × Result (List WriteBatch)
issued = commited_tranaction poor_chain (move issue "bob" "cat") [] []

abbrev two_puts : List WriteBatch
two_puts =
    ("bob", record { amount = negsuc 4; nonce = 1 })
    ∷ ("cat", record { amount = pos 5; nonce = 0 })
    ∷ []

bob_issues : issued ≡ (issued.0, ok two_puts)
unfolding commited_tranaction by_type execute_issue_tx transfer lookup ◌-ℤ◌ insert ◌+ℤ◌
bob_issues = refl

poor_cat-Takes : Takes poor_chain.stored [] "cat" (with_coins 5 1)
unfolding view get_balance lookup ◌+ℤ◌
poor_cat-Takes = (with_coins 0 0, refl, omega arith)

poor-Written : Written poor_chain.stored [] []
unfolding Written written view lookup is_put
poor-Written j = refl

commited_tranaction-Written_example : Written poor_chain.stored two_puts issued.0
commited_tranaction-Written_example =
    commited_tranaction-Written poor_chain (move issue "bob" "cat") [] two_puts [] issued.0
      poor_cat-Takes poor-Written bob_issues

-- Its sender is stored with 5.
stored_without_sign : get_balance (written two_puts poor_chain.stored) "bob" ≡ ok (with_coins 5 1)
unfolding written get_balance
stored_without_sign = refl
