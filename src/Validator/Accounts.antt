-- ===== src/Validator/Accounts.antt =====
-- `Validator` of core/blockchain/validator.go: the accounts of all senders. The map holds pointers, so
-- a method changes the account that the map holds. Account addresses are their `String()`.
pub mod Undo
mod Tests
use l.Base.{
  ℕ, ◌+◌, ◌<◌, ℤ, ◌+ℤ◌, ◌-ℤ◌, Bool, true, false, not, ◌&&◌, ◌||◌, String, Option, none, some, List,
  [], ◌∷◌, ◌++◌, Map, lookup, insert, length, ltb, leb, eqb, if◌then◌else◌, string_eq, ◌==◌,
}
use l.Transaction.{
  Transaction, TxType, atomic, across_chain, merged, backfront, distribut, issue, is_local_chain,
}
use l.Validator.Account.{
  Account, Outcome, done, panic, out_of_fuel, new_account, add_transaction, has_transaction,
  process_orphan, rollback_and_remove, committed_and_remove, update_transaction_receiver_balance,
  update_transaction_sender_balance, get_account_transaction_size, get_transaction_by_hash,
}
use l.Validator.Exception.{check_exception_transaction}
use l.Lbft.Blocks.{CommittedTxs}

pub record Validator : Type 0 where
  pub is_valid : Bool
  pub accounts : Map String Account

pub new_validator : Validator
new_validator = record { is_valid = true; accounts = [] }

pub start_validator : Validator → Validator
start_validator vr = record vr { is_valid = true }

pub stop_validator : Validator → Validator
stop_validator vr = record vr { is_valid = false }

abbrev pub set_account : String → Account → Validator → Validator
set_account address va vr = record vr { accounts = insert address va vr.accounts }

pub fetch_account : String → Validator → Option Account
fetch_account address vr = lookup address vr.accounts

-- A method on an account, if there is one.
unfoldable pub on_account : (Account → Account) → String → Validator → Validator
on_account f address vr = elim (lookup address vr.accounts) [
  | none ↦ vr
  | some va ↦ set_account address (f va) vr
]

abbrev pub with_amount : (ℤ → ℤ) → Account → Account
with_amount f va = record va { amount = f va.amount }

unfoldable pub roll_back_account : Transaction → Validator → Validator
unfolding on_account
roll_back_account tx vr =
    on_account (with_amount (λ a. a -ℤ tx.amount)) tx.recipient
      (on_account (with_amount (λ a. a +ℤ tx.amount)) tx.sender vr)

unfoldable pub update_account : Transaction → Validator → Validator
unfolding on_account
update_account tx vr =
    on_account (update_transaction_receiver_balance tx) tx.recipient
      (on_account (update_transaction_sender_balance tx) tx.sender vr)

unfoldable pub update_transaction_receiver : List Transaction → Validator → Validator
unfolding on_account
update_transaction_receiver [] vr = vr
update_transaction_receiver (tx ∷ txs) vr =
    update_transaction_receiver txs
      (on_account (update_transaction_receiver_balance tx) tx.recipient vr)

sizes : Map String Account → ℕ
sizes [] = 0
sizes ((sender, va) ∷ rest) = get_account_transaction_size va + sizes rest

pub get_validator_size : Validator → ℕ
unfolding sizes
get_validator_size vr = sizes vr.accounts

-- The search over the accounts of `getTransactionByHash`.
find_by_hash : String → Map String Account → Option Transaction
find_by_hash h [] = none
find_by_hash h ((sender, va) ∷ rest) = elim (get_transaction_by_hash h va) [
  | some tx ↦ some tx
  | none ↦ find_by_hash h rest
]

pub get_transaction_by_hash_of_all : String → Validator → Option Transaction
unfolding find_by_hash
get_transaction_by_hash_of_all h vr = find_by_hash h vr.accounts
