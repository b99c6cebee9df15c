-- ===== src/Validator/Exception/Tests.antt =====
-- Four pooled transactions, and another one with the nonce of the last but one or of the last.
use l.Base.{ℕ, pos, ◌≡◌, refl, ◌+ℤ◌, ◌-ℤ◌, inr, String, none, [], ◌∷◌, arith, lookup, string_eq}
use l.Transaction.{Transaction, atomic}
use l.Elements.{Elem, UniqueIds}
use l.Validator.Account.{Account, panic}
use l.Validator.Exception.{check_exception_transaction}
use l.Validator.Exception.Position.{NoncesFrom}
use l.Validator.Exception.Exchanges.{Covered, check_exception_transaction_lem}

abbrev payment_of : String → ℕ → Transaction
payment_of name n = record {
  from_chain = "0";
  to_chain = "0";
  type = atomic;
  nonce = n;
  sender = name;
  recipient = "bob";
  amount = pos 5;
  fee = pos 0;
  create_time = 0;
}

abbrev by_sender : Transaction → String
by_sender tx = tx.sender

abbrev element : String → ℕ → Elem Transaction
element name n = record { id = n; value = payment_of name n }

abbrev four_pooled : Account
four_pooled = record {
  orphans = [];
  txs_list = element "one" 1 ∷ element "two" 2 ∷ element "three" 3 ∷ element "four" 4 ∷ [];
  txs_map =
      ("one", element "one" 1)
      ∷ ("two", element "two" 2)
      ∷ ("three", element "three" 3)
      ∷ ("four", element "four" 4)
      ∷ [];
  next_id = 5;
  amount = pos 20;
  nonce = 5;
  curr_tx_hash = "";
}

unknown : lookup "other" four_pooled.txs_map ≡ none
unfolding lookup
unknown = refl

in_a_row : NoncesFrom 1 four_pooled.txs_list
in_a_row = (refl, (refl, (refl, (refl, tt))))

all_apart : UniqueIds four_pooled.txs_list
all_apart = (
  (omega arith, (omega arith, (omega arith, tt))),
  ((omega arith, (omega arith, tt)), ((omega arith, tt), (tt, tt))),
)

-- With the nonce of the last one, of 8 instead of 5.
abbrev dearer : Transaction
dearer = record (payment_of "other" 4) { amount = pos 8 }

abbrev one : ℕ
one = 1

last-Covered : Covered by_sender dearer (payment_of "four" 4) four_pooled
unfolding ◌+ℤ◌ ◌-ℤ◌
last-Covered = inr (refl, refl)

-- A transaction of the second nonce brings the node down.
far_panics : check_exception_transaction by_sender (payment_of "other" 2) four_pooled ≡ panic
far_panics =
    (check_exception_transaction_lem by_sender (payment_of "other" 2) four_pooled 1 3 in_a_row
        all_apart refl (omega arith) unknown refl (omega arith) (omega arith)).1
      (omega arith)
