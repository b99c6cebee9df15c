-- ===== src/Lbft/Message.antt =====
-- core/consensus/lbft/message.go. An int64 or uint64 is a number; `hash`, the hex of the SHA-256
-- of a serialized message, is a parameter.
use Prim.Native.String.{◌++◌ as append}
use l.Base.{ℕ, String, List, [], ◌∷◌, eqb, if◌then◌else◌}
use l.Transaction.{Transaction}

pub record RequestBatch : Type 0 where
  pub time : ℕ
  pub requests : List Transaction  -- each `Request` holds one transaction
  pub id : ℕ
  pub index : ℕ
  pub height : ℕ

-- `EMPTYBLOCK`, the id of an empty block.
abbrev pub empty_block : ℕ
empty_block = 1136160000

abbrev pub min_quorum : ℕ
min_quorum = 3

first_from : List Transaction → String
first_from [] = ""
first_from (tx ∷ txs) = tx.from_chain

first_to : List Transaction → String
first_to [] = ""
first_to (tx ∷ txs) = tx.to_chain

-- The loops leave at their first request, so the panic behind them is not reached.
unfoldable pub from_chain : RequestBatch → String
unfolding first_from
from_chain msg = first_from msg.requests

unfoldable pub to_chain : RequestBatch → String
unfolding first_to from_chain
to_chain msg = if eqb msg.index 0 then from_chain msg else first_to msg.requests

pub key : (RequestBatch → String) → RequestBatch → String
key hash msg = append (from_chain msg) (append "-" (append (to_chain msg) (append "-" (hash msg))))

pub record PrePrepare : Type 0 where
  pub name : String
  pub primary_id : String
  pub chain : String
  pub replica_id : String
  pub seq_no : ℕ
  pub requests : RequestBatch

pub record Prepare : Type 0 where
  pub name : String
  pub primary_id : String
  pub chain : String
  pub replica_id : String
  pub seq_no : ℕ
  pub digest : String
  pub quorum : ℕ

pub record Commit : Type 0 where
  pub name : String
  pub primary_id : String
  pub chain : String
  pub replica_id : String
  pub seq_no : ℕ
  pub digest : String
  pub quorum : ℕ

pub record Committed : Type 0 where
  pub name : String
  pub chain : String
  pub replica_id : String
  pub seq_no : ℕ
  pub request_batch : RequestBatch

pub record FetchCommitted : Type 0 where
  pub chain : String
  pub replica_id : String
  pub seq_no : ℕ

pub record ViewChange : Type 0 where
  pub replica_id : String
  pub chain : String
  pub priority : ℕ
  pub primary_id : String
  pub seq_no : ℕ
  pub height : ℕ
  pub opt_hash : String

pub record NullRequest : Type 0 where
  pub replica_id : String
  pub chain : String
  pub primary_id : String
  pub seq_no : ℕ
  pub height : ℕ
  pub opt_hash : String

-- A decoded message. The source carries a type number and a payload, and each getter decodes the
-- payload of its own type; `unsupported` is any other number.
pub data Message : Type 0 where
  request_batch : RequestBatch → Message
  pre_prepare : PrePrepare → Message
  prepare : Prepare → Message
  commit : Commit → Message
  committed : Committed → Message
  fetch_committed : FetchCommitted → Message
  view_change : ViewChange → Message
  null_request : NullRequest → Message
  unsupported : ℕ → Message
