-- ===== src/BlockStorage/Tests.antt =====
-- The genesis block, and a block with two transactions behind it.
use l.Base.{pos, ◌≡◌, refl, true, String, some, [], ◌∷◌, All, if◌then◌else◌, string_eq, ◌==◌}
use l.Transaction.{Transaction, atomic}
use l.Ledger.Store.{Block, BlockHeader}
use l.BlockStorage.{
  Value, header, transaction, empty_database, genesis, append_block, write_all, verify_chain,
  get_last_block_hash,
}
use l.BlockStorage.Reads.{Holds}
use l.BlockStorage.Verifies.{IsReadable, IsLinked, append_block-IsReadable}

abbrev paid_to : String → Transaction
paid_to recipient = record {
  from_chain = "00";
  to_chain = "00";
  type = atomic;
  nonce = 1;
  sender = "a";
  recipient = recipient;
  amount = pos 3;
  fee = pos 0;
  create_time = 7;
}

abbrev header_hash : BlockHeader → String
header_hash h = h.previous_hash

abbrev tx_hash : Transaction → String
tx_hash tx = tx.recipient

abbrev first_block : Block
first_block = record {
  header = record genesis.header { previous_hash = "g" };
  transactions = paid_to "b" ∷ paid_to "c" ∷ [];
}

abbrev known : String → Value
known hash = if hash == "g" then header first_block.header else transaction (paid_to hash)

empty_database-Holds : Holds header_hash tx_hash known empty_database []
empty_database-Holds = record { sound = tt; last = refl; stored = tt; heights = tt; known = tt }

append_block-IsReadable_example :
    let db' = write_all (append_block header_hash tx_hash first_block) empty_database in
    Holds header_hash tx_hash known db' (first_block ∷ [])
    × All
        (IsReadable header_hash tx_hash known (λ tx. genesis.header) (λ h. paid_to "x") db')
        (first_block ∷ [])
    × (get_last_block_hash header_hash (λ tx. genesis.header) db' ≡ some "g")
    × (IsLinked header_hash (first_block ∷ [])
        → verify_chain header_hash (λ tx. genesis.header) db' ≡ true)
append_block-IsReadable_example =
    append_block-IsReadable header_hash tx_hash known (λ tx. genesis.header) (λ h. paid_to "x")
      first_block empty_database [] empty_database-Holds refl (refl, (refl, (refl, tt)))
