-- ===== src/Lbft/Blocks.antt =====
-- `handleCommittedRequestBatch` and `writeBlock` of core/consensus/lbft/lbft.go: the batches that the
-- checkpoint delivers are gathered until a batch of the own chain with another height comes, and go
-- to the block chain together. `committedTxsChan` is a list here.
pub mod Gathers
mod Tests
use l.Base.{
  ℕ, ◌+◌, Bool, true, false, ◌||◌, String, List, [], ◌∷◌, ◌++◌, eqb, if◌then◌else◌, string_eq, ◌==◌,
}
use l.Transaction.{Transaction}
use l.Lbft.Message.{RequestBatch, from_chain, empty_block}

pub record CommittedRequestBatch : Type 0 where
  pub request_batch : RequestBatch
  pub seq_no : ℕ

pub record CommittedTxs : Type 0 where
  pub skip : Bool
  pub is_local_chain : Bool
  pub seq_no : ℕ
  pub time : ℕ
  pub transactions : List Transaction

pub record OutputTxs : Type 0 where
  pub outputs : List CommittedTxs
  pub height : ℕ

-- `committedBlock`, the loop's variable `height`, and what has been sent.
pub record Writer : Type 0 where
  pub block : List CommittedRequestBatch
  pub height : ℕ
  pub sent : List OutputTxs

-- The loop of `writeBlock`; `num` is `concurrentNumFrom`, which only the own chain's batches count.
unfoldable pub outputs_from : String → ℕ → List CommittedRequestBatch → List CommittedTxs
outputs_from own num [] = []
outputs_from own num (ctt ∷ ctts) =
    let local_ = outputs_from own (num + 1) ctts in
    let foreign_ = outputs_from own num ctts in
    let batch = ctt.request_batch in
    if from_chain batch == own
    then record {
      skip = eqb (num + 1) 1;
      is_local_chain = true;
      seq_no = ctt.seq_no;
      time = batch.time;
      transactions = batch.requests;
    }
      ∷ local_
    else record {
      skip = false;
      is_local_chain = false;
      seq_no = ctt.seq_no;
      time = batch.time;
      transactions = batch.requests;
    }
      ∷ foreign_

-- The height of a block is that of its first batch.
unfoldable pub write_block : String → Writer → Writer
unfolding outputs_from
write_block own w = elim w.block [
  | [] ↦ w
  | ctt ∷ ctts ↦ record w {
    block = [];
    sent =
        w.sent
        ++ (record { outputs = outputs_from own 0 (ctt ∷ ctts); height = ctt.request_batch.height }
            ∷ []);
  }
]

abbrev pub is_own : String → RequestBatch → Bool
is_own own batch = eqb batch.id empty_block || from_chain batch == own

-- One delivered batch.
unfoldable pub gather : String → CommittedRequestBatch → Writer → Writer
unfolding write_block
gather own ctt w =
    let batch = ctt.request_batch in
    if is_own own batch
    then (if eqb w.height 0 || eqb w.height batch.height
        then record w { block = w.block ++ (ctt ∷ []); height = batch.height }
        else record (write_block own w) { block = ctt ∷ []; height = batch.height })
    else record w { block = w.block ++ (ctt ∷ []) }

-- The batches that come from the checkpoint, one after the other.
unfoldable pub gather_all : String → List CommittedRequestBatch → Writer → Writer
gather_all own [] w = w
gather_all own (ctt ∷ ctts) w = gather_all own ctts (gather own ctt w)
