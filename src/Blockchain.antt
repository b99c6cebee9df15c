-- ===== src/Blockchain.antt =====
-- core/blockchain/blockchain.go: the service that turns the outputs of consensus into blocks, and the
-- chain of block headers. The ledger, the pool and the hash of a header are those of Ledger and
-- Validator, with their parameters. Relaying a block is keeping it in a list.
pub mod Linked
pub mod Orphans
mod Tests
use l.Base.{
  ℕ, zero, suc, ◌+◌, ◌%◌, ◌^◌, ◌<◌, ℤ, Bool, true, false, not, ◌&&◌, ◌||◌, String, Option, none,
  some, List, [], ◌∷◌, ◌++◌, ltb, eqb, length, if◌then◌else◌, string_eq, ◌==◌,
}
use l.Transaction.{Transaction}
use l.State.{Result}
use l.Elements.{Elem, unlink}
use l.Lbft.Blocks.{OutputTxs}
use l.Validator.Account.{Outcome, done, panic, out_of_fuel}
use l.Validator.Accounts.{Validator, get_validator_size}
use l.Validator.Pool.{get_committed_txs, push_tx_in_tx_pool, Chains}
use l.Ledger.{Chain, Machine}
use l.Ledger.Store.{BlockHeader, Block, Ledger, append_block, ledger_height}

pub record Blockchain (C : Type 0) : Type 0 where
  pub current_block_header : BlockHeader
  pub ledger : Ledger C
  pub tx_validator : Validator
  pub orphans : List (Elem OutputTxs)
  pub next_id : ℕ
  pub synced : Bool
  pub relayed : List Block

-- What the block chain uses of other code: the hash of a header, the Merkle hash, the hash of a
-- transaction, the ledger's answer on an address and the difference of two sets.
pub record Services (C : Type 0) : Type 1 where
  pub chain : Chain
  pub machine : Machine C
  pub header_hash : BlockHeader → String
  pub merkle : List Transaction → String
  pub balance : String → ℤ × ℕ
  pub difference : List Transaction → List Transaction → List Transaction

-- What panics does not go on.
unfoldable pub proceed : {A B : Type 0} → Outcome A → (A → Outcome B) → Outcome B
proceed (done a) f = f a
proceed panic f = panic
proceed out_of_fuel f = out_of_fuel

-- `elem.Next()`: nil behind the last element, and for an element that the list no longer holds.
unfoldable pub next : Elem OutputTxs → List (Elem OutputTxs) → Option (Elem OutputTxs)
next e [] = none
next e (x ∷ []) = none
next e (x ∷ y ∷ ys) = let rest = next e (y ∷ ys) in if eqb x.id e.id then some y else rest

unfoldable pub front : List (Elem OutputTxs) → Option (Elem OutputTxs)
front [] = none
front (x ∷ xs) = some x

-- Relayed, if it has the height that consensus gave it.
unfoldable pub relay : {C : Type 0} → OutputTxs → Block → Blockchain C → Blockchain C
relay output blk bc =
    if eqb blk.header.height output.height
    then record bc { relayed = bc.relayed ++ (blk ∷ []) }
    else bc

module _ {C : Type 0} (s : Services C) where
  -- The default value of the Merkle hash is the empty one here.
  unfoldable pub generate_block : List Transaction → ℕ → Blockchain C → Block
  generate_block txs create_time bc = record {
    header = record {
      previous_hash = s.header_hash bc.current_block_header;
      time_stamp = create_time;
      nonce = 100;
      txs_merkle_hash = "";
      height = (bc.current_block_header.height + 1) % 2 ^ 32;
    };
    transactions = txs;
  }

  -- `accepts` is whether the database takes the block. The error of `AppendBlock` is not looked at.
  unfoldable pub process_block : Bool → Block → Bool → Blockchain C → Blockchain C × Bool
  unfolding append_block
  process_block accepts blk flag bc =
      let ((blk', ledger'), _) =
        append_block s.chain s.machine s.merkle accepts flag blk bc.ledger in
      if blk.header.previous_hash == s.header_hash bc.current_block_header
      then (record bc { ledger = ledger'; current_block_header = blk'.header }, true)
      else (bc, false)

  unfoldable pub process_consensus_output : OutputTxs → Blockchain C → Outcome (Blockchain C)
  unfolding get_committed_txs generate_block relay
  process_consensus_output output bc =
      proceed (get_committed_txs s.balance s.chain.hash s.difference output.outputs bc.tx_validator)
        (λ (vr, (txs, time)).
          done (relay output (generate_block txs time bc) (record bc { tx_validator = vr })))

  -- `bc.orphans.PushBack`.
  abbrev pub push_orphan : OutputTxs → Blockchain C → Blockchain C
  push_orphan output bc = record bc {
    orphans = bc.orphans ++ (record { id = bc.next_id; value = output } ∷ []);
    next_id = bc.next_id + 1;
  }

  abbrev without : Elem OutputTxs → Blockchain C → Blockchain C
  without e bc = record bc { orphans = unlink e bc.orphans }

  -- The loop over the orphans; `Next` is called on the element after its removal.
  unfoldable pub process_orphans :
      ℕ → ℕ → Option (Elem OutputTxs) → Blockchain C → Outcome (Blockchain C)
  unfolding process_consensus_output
  process_orphans fuel height none bc = done bc
  process_orphans zero height (some e) bc = out_of_fuel
  process_orphans (suc fuel) height (some e) bc =
      let after = without e bc in
      let dropped = process_orphans fuel height (next e after.orphans) after in
      let processed : Outcome (Blockchain C) =
        proceed (process_consensus_output e.value after)
          (λ bc'. process_orphans fuel ((height + 1) % 2 ^ 32) (next e bc'.orphans) bc') in
      if ltb e.value.height height
      then dropped
      else if eqb e.value.height height
      then processed
      else done bc

  -- Past a hundred orphans the first one goes.
  unfoldable pub trim_orphans : Blockchain C → Blockchain C
  trim_orphans bc =
      if ltb 100 (length bc.orphans)
      then elim (front bc.orphans) [ none ↦ bc | some e ↦ without e bc ]
      else bc

  -- One output of `StartConsensusService`.
  unfoldable pub handle_output : OutputTxs → Blockchain C → Outcome (Blockchain C)
  unfolding process_consensus_output process_orphans trim_orphans front
  handle_output output bc =
      let height = (ledger_height bc.ledger + 1) % 2 ^ 32 in
      let kept : Outcome (Blockchain C) =
        proceed (process_orphans (length bc.orphans + 1) height (front bc.orphans) bc)
          (λ bc'. done (push_orphan output (trim_orphans bc'))) in
      if eqb output.height height
      then process_consensus_output output (record bc { synced = true })
      else if ltb height output.height
      then kept
      else done bc

  -- `ProcessTransaction`, when the pool has been started.
  pub process_transaction :
      Chains
      → List String
      → (Transaction → Option String)
      → Transaction
      → Blockchain C
      → Blockchain C × Bool
  process_transaction chains issuers signer tx bc =
      let (vr, taken) =
        push_tx_in_tx_pool s.balance s.chain.hash chains issuers signer tx bc.tx_validator in
      if ltb (get_validator_size bc.tx_validator) 1000000
      then (record bc { tx_validator = vr }, taken)
      else (bc, true)
