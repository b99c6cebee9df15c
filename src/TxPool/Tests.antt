-- ===== src/TxPool/Tests.antt =====
-- A pool of one transaction, whose sender stands for its hash.
use l.Base.{String, pos, string_eq}
use l.Transaction.{Transaction, atomic}

abbrev payment : Transaction
payment = record {
  from_chain = "0";
  to_chain = "0";
  type = atomic;
  nonce = 1;
  sender = "alice";
  recipient = "bob";
  amount = pos 5;
  fee = pos 0;
  create_time = 0;
}

abbrev sender_hash : Transaction → String
sender_hash tx = tx.sender
