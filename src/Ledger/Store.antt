-- ===== src/Ledger/Store.antt =====
-- `AppendBlock` of core/ledger/ledger.go: a block is executed, and written with its batches. The
-- database of blocks is the list of the blocks written, the last one first, and that of balances a
-- function. `merge.ClassifiedTransaction` gets the transactions that await their merge.
use l.Base.{
  ℕ, ◌+◌, pos, pos_part, neg_part, Bool, true, false, not, String, List, [], ◌∷◌, ◌++◌,
  if◌then◌else◌, string_eq, ◌==◌,
}
use l.Transaction.{Transaction, across_chain, merged, is_local_chain}
use l.State.{Balance, Stored, present, Result, ok, err, WriteBatch, atomic_write}
use l.Ledger.{Chain, Machine, World, execute_transaction}

-- A balance that has been serialized and read again: only the bytes of the amount are written, as of
-- every `big.Int`, and they have no sign.
abbrev pub read_back : Balance → Balance
read_back b = record b { amount = pos (pos_part b.amount + neg_part b.amount) }

-- The database behind a put.
unfoldable pub put : String → Balance → (String → Stored) → String → Stored
put a b db j = if a == j then present (read_back b) else db j

-- The database when the batches have been written in their order.
unfoldable pub written : List WriteBatch → (String → Stored) → String → Stored
unfolding put
written [] db = db
written ((a, b) ∷ batches) db = written batches (put a b db)

pub record BlockHeader : Type 0 where
  pub previous_hash : String
  pub time_stamp : ℕ
  pub nonce : ℕ
  pub txs_merkle_hash : String
  pub height : ℕ  -- uint32

pub record Block : Type 0 where
  pub header : BlockHeader
  pub transactions : List Transaction

pub record Ledger (C : Type 0) : Type 0 where
  pub stored : String → Stored
  pub world : World C
  pub blocks : List Block
  pub classified : List Transaction

abbrev awaits_merge : Transaction → Bool
awaits_merge tx = elim tx.type [
  | across_chain ↦ true
  | merged ↦ not (is_local_chain tx)
  | _ ↦ false
]

unfoldable pub to_merge : List Transaction → List Transaction
to_merge [] = []
to_merge (tx ∷ txs) = let rest = to_merge txs in if awaits_merge tx then tx ∷ rest else rest

-- `Height`: that of the last block written.
unfoldable pub ledger_height : {C : Type 0} → Ledger C → ℕ
ledger_height l = elim l.blocks [ [] ↦ 0 | b ∷ _ ↦ b.header.height ]

module _ {C : Type 0} (chain : Chain) (machine : Machine C)
    (merkle : List Transaction → String) where
  abbrev pub chain_of : Ledger C → Chain
  chain_of l = record chain { stored = l.stored }

  -- What is written, or, if the database refuses, not; that is no error of the method.
  unfoldable pub write_block_of : Bool → Block → List WriteBatch → Ledger C → Ledger C
  unfolding written to_merge atomic_write
  write_block_of accepts block batches l =
      let (tmp', r) = atomic_write accepts l.world.tmp in
      elim r [
        | err e ↦ l
        | ok _ ↦ record l {
          stored = written batches l.stored;
          world = record l.world { tmp = tmp' };
          blocks = block ∷ l.blocks;
          classified = l.classified ++ to_merge block.transactions;
        }
      ]

  -- `AppendBlock` behind the execution; it changes the block in place.
  unfoldable pub settle_block :
      Bool
      → Block
      → Ledger C
      → Result (List WriteBatch × List Transaction)
      → (Block × Ledger C) × Result (Unit {0})
  unfolding write_block_of
  settle_block accepts block l (err e) = ((record block { transactions = [] }, l), err e)
  settle_block accepts block l (ok (batches, txs)) =
      let block' = record block {
        header = record block.header { txs_merkle_hash = merkle txs };
        transactions = txs;
      } in
      ((block', write_block_of accepts block' batches l), ok tt)

  -- `accepts` is whether the database takes the write.
  unfoldable pub append_block :
      Bool → Bool → Block → Ledger C → (Block × Ledger C) × Result (Unit {0})
  unfolding settle_block
  append_block accepts flag block l =
      let (w', r) = execute_transaction (chain_of l) machine flag block.transactions l.world in
      settle_block accepts block (record l { world = w' }) r
