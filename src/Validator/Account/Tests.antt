-- ===== src/Validator/Account/Tests.antt =====
-- An account with one or two pooled transactions; the sender stands for the hash.
use l.Base.{
  ℕ, pos, ◌≡◌, ◌-ℤ◌, refl, true, String, some, none, [], ◌∷◌, List, arith, lookup, delete,
  string_eq,
}
use l.Transaction.{Transaction, atomic}
use l.Elements.{Elem, unlink, UniqueIds}
use l.Validator.Account.{
  Account, done, panic, add_transaction, committed_and_remove, take_orphans, prev, is_acceptable,
}
use l.Validator.Account.Accepts.{worth, worth-add_transaction}
use l.Validator.Account.Commits.{committed_and_remove_lem}
use l.Validator.Account.Orphans.{IsSorted, Taken, take_orphans-Taken}

abbrev payment : String → ℕ → Transaction
payment name n = record {
  from_chain = "0";
  to_chain = "0";
  type = atomic;
  nonce = n;
  sender = name;
  recipient = "bob";
  amount = pos 5;
  fee = pos 0;
  create_time = 0;
}

abbrev sender_hash : Transaction → String
sender_hash tx = tx.sender

abbrev first_element : Elem Transaction
first_element = record { id = 0; value = payment "one" 1 }

abbrev second_element : Elem Transaction
second_element = record { id = 1; value = payment "two" 2 }

abbrev two_pooled : Account
two_pooled = record {
  orphans = payment "four" 4 ∷ [];
  txs_list = first_element ∷ second_element ∷ [];
  txs_map = ("one", first_element) ∷ ("two", second_element) ∷ [];
  next_id = 2;
  amount = pos 20;
  nonce = 3;
  curr_tx_hash = "";
}

worth-add_transaction_example :
    worth (add_transaction sender_hash (payment "three" 3) two_pooled).0 ≡ worth two_pooled
worth-add_transaction_example = worth-add_transaction sender_hash (payment "three" 3) two_pooled

two_found : lookup "two" two_pooled.txs_map ≡ some second_element
unfolding lookup
two_found = refl

three_accepted : (add_transaction sender_hash (payment "three" 3) two_pooled).1 ≡ true
unfolding add_transaction is_acceptable ◌-ℤ◌
three_accepted = refl

two_unique : UniqueIds two_pooled.txs_list
two_unique = ((omega arith, tt), (tt, tt))

-- The second transaction has the first one in front of it: a panic.
committed_and_remove_lem_example :
    committed_and_remove sender_hash (payment "two" 2) two_pooled
    ≡ elim (prev second_element two_pooled.txs_list) [
      | some _ ↦ panic
      | none ↦ done (record two_pooled {
        txs_list = unlink second_element two_pooled.txs_list;
        txs_map = delete "two" two_pooled.txs_map;
      })
    ]
committed_and_remove_lem_example =
    committed_and_remove_lem sender_hash (payment "two" 2) second_element two_pooled two_unique
      two_found

first_in_front : prev second_element two_pooled.txs_list ≡ some first_element
unfolding prev
first_in_front = refl

abbrev early : List Transaction
early = payment "three" 3 ∷ payment "four" 4 ∷ payment "six" 6 ∷ []

early-IsSorted : IsSorted early
early-IsSorted = ((omega arith, (omega arith, tt)), ((omega arith, tt), (tt, tt)))

take_orphans-Taken_example : Taken 3 early (take_orphans 3 early).0 (take_orphans 3 early).1
take_orphans-Taken_example = take_orphans-Taken 3 early (omega arith) early-IsSorted
