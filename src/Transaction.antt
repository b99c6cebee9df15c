-- ===== src/Transaction.antt =====
-- core/types/transaction.go: the fields of a transaction that the modelled code reads. Chains are
-- the hex strings of their coordinates, addresses their `String()`; `sign` and payload play no part
-- but in the hash, which is a parameter wherever it is used.
use l.Base.{ℕ, ℤ, Bool, String, ◌==◌, string_eq}

-- The transaction types; `other` is any number above them.
pub data TxType : Type 0 where
  atomic across_chain merged backfront distribut issue : TxType
  js_contract_init lua_contract_init contract_invoke contract_query : TxType
  other : ℕ → TxType

pub record Transaction : Type 0 where
  pub from_chain : String
  pub to_chain : String
  pub type : TxType
  pub nonce : ℕ  -- uint32
  pub sender : String
  pub recipient : String
  pub amount : ℤ
  pub fee : ℤ
  pub create_time : ℕ  -- uint32

pub is_local_chain : Transaction → Bool
is_local_chain tx = tx.from_chain == tx.to_chain
