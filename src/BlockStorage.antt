-- ===== src/BlockStorage.antt =====
-- core/ledger/block_storage/block_storage.go, and the queries of core/ledger/ledger.go: what is read
-- back of the blocks that were appended. The column family "block" holds headers and transactions
-- under their hashes; that of the index holds hashes under heights, the last height, and lists of
-- hashes under heights with a prefix, and these keys differ in length. Serialization is left out:
-- the bytes of the other kind give `garbled`. A read of the database does not fail, and it takes every
-- write; `none` is any error.
pub mod Reads
pub mod Verifies
mod Tests
use l.Base.{
  ℕ, ◌+◌, ◌-◌, zero, suc, Bool, true, false, not, ◌&&◌, ◌||◌, String, Option, none, some, List, [],
  ◌∷◌, ◌++◌, map, Map, lookup, insert, ltb, eqb, if◌then◌else◌, string_eq, nat_eq, ◌==◌,
}
use l.Transaction.{
  Transaction, TxType, atomic, across_chain, merged, backfront, distribut, issue, js_contract_init,
  lua_contract_init, contract_invoke, contract_query, other,
}
use l.Ledger.Store.{Block, BlockHeader}

pub data Value : Type 0 where
  header : BlockHeader → Value
  transaction : Transaction → Value

pub record Database : Type 0 where
  pub blocks : Map String Value
  pub numbers : Map ℕ String
  pub last_height : Option ℕ
  pub tx_hashs : Map ℕ (List String)

pub data WriteBatch : Type 0 where
  put_block : String → Value → WriteBatch
  put_number : ℕ → String → WriteBatch
  put_height : ℕ → WriteBatch
  put_tx_hashs : ℕ → List String → WriteBatch

unfoldable pub write_one : WriteBatch → Database → Database
write_one (put_block hash v) db = record db { blocks = insert hash v db.blocks }
write_one (put_number n hash) db = record db { numbers = insert n hash db.numbers }
write_one (put_height n) db = record db { last_height = some n }
write_one (put_tx_hashs n hashs) db = record db { tx_hashs = insert n hashs db.tx_hashs }

unfoldable pub write_all : List WriteBatch → Database → Database
unfolding write_one
write_all [] db = db
write_all (b ∷ batchs) db = write_all batchs (write_one b db)

-- The number of a transaction type.
unfoldable pub type_number : TxType → ℕ
type_number atomic = 0
type_number across_chain = 1
type_number merged = 2
type_number backfront = 3
type_number distribut = 4
type_number issue = 5
type_number js_contract_init = 6
type_number lua_contract_init = 7
type_number contract_invoke = 8
type_number contract_query = 9
type_number (other n) = n

unfoldable pub tx_batchs : (Transaction → String) → List Transaction → List WriteBatch
tx_batchs tx_hash [] = []
tx_batchs tx_hash (tx ∷ txs) = put_block (tx_hash tx) (transaction tx) ∷ tx_batchs tx_hash txs

module _ (header_hash : BlockHeader → String) (tx_hash : Transaction → String) where
  unfoldable pub append_block : Block → List WriteBatch
  unfolding tx_batchs
  append_block block =
      let hash = header_hash block.header in
      let height = block.header.height in
      put_block hash (header block.header)
      ∷ put_number height hash
      ∷ put_height height
      ∷ (tx_batchs tx_hash block.transactions
          ++ (put_tx_hashs height (map tx_hash block.transactions) ∷ []))

module _ (garbled : Transaction → BlockHeader) where
  unfoldable pub get_block_by_hash : String → Database → Option BlockHeader
  get_block_by_hash hash db = elim (lookup hash db.blocks) [
    | none ↦ none
    | some v ↦ elim v [ header h ↦ some h | transaction tx ↦ some (garbled tx) ]
  ]

  unfoldable pub get_block_hash_by_number : ℕ → Database → Option String
  get_block_hash_by_number n db = elim db.last_height [
    | none ↦ none
    | some current ↦ if ltb current n then none else lookup n db.numbers
  ]

  unfoldable pub get_block_by_number : ℕ → Database → Option BlockHeader
  unfolding get_block_by_hash get_block_hash_by_number
  get_block_by_number n db = elim (get_block_hash_by_number n db) [
    | none ↦ none
    | some hash ↦ get_block_by_hash hash db
  ]

-- The genesis block has no transactions, and perhaps no list of them.
unfoldable pub get_transaction_hash_list : ℕ → Database → Option (List String)
get_transaction_hash_list n db = elim (lookup n db.tx_hashs) [
  | none ↦ if eqb n 0 then some [] else none
  | some hashs ↦ some hashs
]

-- Type 100 stands for all.
abbrev pub is_wanted : ℕ → Transaction → Bool
is_wanted type tx = eqb type 100 || eqb (type_number tx.type) type

module _ (garbled_tx : BlockHeader → Transaction) where
  unfoldable pub get_transaction_by_tx_hash : String → Database → Option Transaction
  get_transaction_by_tx_hash hash db = elim (lookup hash db.blocks) [
    | none ↦ none
    | some v ↦ elim v [ header h ↦ some (garbled_tx h) | transaction tx ↦ some tx ]
  ]

  unfoldable pub get_transactions_by_hash_list :
      List String → ℕ → Database → Option (List Transaction)
  unfolding get_transaction_by_tx_hash type_number
  get_transactions_by_hash_list [] type db = some []
  get_transactions_by_hash_list (hash ∷ hashs) type db = elim (get_transaction_by_tx_hash hash db) [
    | none ↦ none
    | some tx ↦ elim (get_transactions_by_hash_list hashs type db) [
      | none ↦ none
      | some txs ↦ some (if is_wanted type tx then tx ∷ txs else txs)
    ]
  ]

  unfoldable pub get_transactions_by_number : ℕ → ℕ → Database → Option (List Transaction)
  unfolding get_transaction_hash_list get_transactions_by_hash_list
  get_transactions_by_number n type db = elim (get_transaction_hash_list n db) [
    | none ↦ none
    | some hashs ↦ get_transactions_by_hash_list hashs type db
  ]

  unfoldable pub get_transactions_by_hash :
      (Transaction → BlockHeader) → String → ℕ → Database → Option (List Transaction)
  unfolding get_block_by_hash get_transactions_by_number
  get_transactions_by_hash garbled hash type db = elim (get_block_by_hash garbled hash db) [
    | none ↦ none
    | some h ↦ get_transactions_by_number h.height type db
  ]

  -- `GetTxsByMergeTxHash` of the ledger, with the hashes that the merge storage gave.
  unfoldable pub get_txs_by_hashs : List String → Database → Option (List Transaction)
  unfolding get_transaction_by_tx_hash
  get_txs_by_hashs [] db = some []
  get_txs_by_hashs (hash ∷ hashs) db = elim (get_transaction_by_tx_hash hash db) [
    | none ↦ none
    | some tx ↦ elim (get_txs_by_hashs hashs db) [ none ↦ none | some txs ↦ some (tx ∷ txs) ]
  ]

module _ (header_hash : BlockHeader → String) (garbled : Transaction → BlockHeader) where
  unfoldable pub get_last_block_hash : Database → Option String
  unfolding get_block_by_number
  get_last_block_hash db = elim db.last_height [
    | none ↦ none
    | some n ↦ elim (get_block_by_number garbled n db) [
      | none ↦ none
      | some h ↦ some (header_hash h)
    ]
  ]

  -- The loop of `VerifyChain` below the block of height `i`. A panic gives false; a block that is
  -- not there is one, as its header is nil.
  unfoldable pub verify_below : ℕ → BlockHeader → Database → Bool
  unfolding get_block_by_number
  verify_below zero current db = true
  verify_below (suc i) current db = elim (get_block_by_number garbled i db) [
    | none ↦ false
    | some previous ↦ (header_hash previous == current.previous_hash) && verify_below i previous db
  ]

  -- A last block that is not there is a panic as well, unless it is the first.
  unfoldable pub verify_chain : Database → Bool
  unfolding verify_below
  verify_chain db = elim db.last_height [
    | none ↦ false
    | some n ↦ elim (get_block_by_number garbled n db) [
      | none ↦ eqb n 0
      | some current ↦ verify_below n current db
    ]
  ]

abbrev pub empty_database : Database
empty_database = record { blocks = []; numbers = []; last_height = none; tx_hashs = [] }

-- `init` of the ledger, where the database is empty.
abbrev pub genesis : Block
genesis = record {
  header = record {
    previous_hash = "";
    time_stamp = 0;
    nonce = 100;
    txs_merkle_hash = "";
    height = 0;
  };
  transactions = [];
}
