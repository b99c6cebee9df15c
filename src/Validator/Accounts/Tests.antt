-- ===== src/Validator/Accounts/Tests.antt =====
-- An account that pays itself.
use l.Base.{pos, ◌≡◌, true, String, [], ◌∷◌}
use l.Transaction.{Transaction, atomic}
use l.Validator.Account.{new_account}
use l.Validator.Accounts.{Validator, update_account, roll_back_account}
use l.Validator.Accounts.Undo.{roll_back_account-update_account}

abbrev gift : String → String → Transaction
gift alice chain = record {
  from_chain = chain;
  to_chain = "0";
  type = atomic;
  nonce = 1;
  sender = alice;
  recipient = "bob";
  amount = pos 5;
  fee = pos 0;
  create_time = 0;
}

abbrev one_account : Validator
one_account = record { is_valid = true; accounts = ("bob", new_account (pos 7) 0) ∷ [] }

roll_back_account-update_account_example :
    roll_back_account (gift "bob" "0") (update_account (gift "bob" "0") one_account) ≡ one_account
roll_back_account-update_account_example =
    roll_back_account-update_account (gift "bob" "0") one_account
