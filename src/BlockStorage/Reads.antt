-- ===== src/BlockStorage/Reads.antt =====
-- What was appended is read back.
use l.Base.{
  ℕ, ◌<◌, ◌≡◌, ◌≢◌, refl, false, String, Option, none, some, List, [], ◌∷◌, ◌++◌, map, Map, lookup,
  insert, lookup-insert, lookup-insert_self, All-both, All-insert, eqb, if◌then◌else◌, string_eq,
  nat_eq, ==_self, arith, All, All-map, length,
}
use l.Transaction.{Transaction}
use l.Ledger.Store.{Block, BlockHeader}
use l.BlockStorage.{
  Value, header, transaction, Database, WriteBatch, write_all, tx_batchs, append_block, is_wanted,
  type_number,
}

-- The transactions of a type.
unfoldable pub wanted : ℕ → List Transaction → List Transaction
unfolding type_number
wanted type [] = []
wanted type (tx ∷ txs) = let rest = wanted type txs in if is_wanted type tx then tx ∷ rest else rest

-- The blocks, the last one first, have the heights down to 0.
abbrev pub IsNumbered : List Block → Type 0
IsNumbered [] = Unit {0}
IsNumbered (b ∷ chain) = (b.header.height ≡ length chain) × IsNumbered chain

abbrev pub top : List Block → Option ℕ
top [] = none
top (b ∷ chain) = some b.header.height

put_all : (Transaction → String) → List Transaction → Map String Value → Map String Value
put_all tx_hash [] m = m
put_all tx_hash (tx ∷ txs) m = put_all tx_hash txs (insert (tx_hash tx) (transaction tx) m)

write_all-txs :
    (tx_hash : Transaction → String) (txs : List Transaction) (rest : List WriteBatch)
    (db : Database)
    → write_all (tx_batchs tx_hash txs ++ rest) db
      ≡ write_all rest (record db { blocks = put_all tx_hash txs db.blocks })
unfolding write_all tx_batchs put_all
write_all-txs tx_hash [] rest db = refl
write_all-txs tx_hash (tx ∷ txs) rest db =
    write_all-txs tx_hash txs rest
      (record db { blocks = insert (tx_hash tx) (transaction tx) db.blocks })

-- The heights of a chain are below its length.
pub IsNumbered-below :
    (chain : List Block) → IsNumbered chain → All (λ c. c.header.height < length chain) chain
IsNumbered-below [] n = tt
IsNumbered-below (b ∷ chain) n =
    (omega (arith, n.0), All-map (λ c h. omega (arith, h)) chain (IsNumbered-below chain n.1))

-- `of` tells which header or transaction has a hash, so that no two of those here share one.
module _ (header_hash : BlockHeader → String) (tx_hash : Transaction → String)
    (of : String → Value) where
  abbrev pub IsKnown : Block → Type 0
  IsKnown b =
      (of (header_hash b.header) ≡ header b.header)
      × All (λ tx. of (tx_hash tx) ≡ transaction tx) b.transactions

  pub record IsStored (db : Database) (b : Block) : Type 0 where
    pub number : lookup b.header.height db.numbers ≡ some (header_hash b.header)
    pub head : lookup (header_hash b.header) db.blocks ≢ none
    pub hashs : lookup b.header.height db.tx_hashs ≡ some (map tx_hash b.transactions)
    pub txs : All (λ tx. lookup (tx_hash tx) db.blocks ≢ none) b.transactions

  -- The database holds the chain.
  pub record Holds (db : Database) (chain : List Block) : Type 0 where
    pub sound : All (λ (e : String × Value). of e.0 ≡ e.1) db.blocks
    pub last : db.last_height ≡ top chain
    pub stored : All (IsStored db) chain
    pub heights : IsNumbered chain
    pub known : All IsKnown chain

  present-insert :
      (k j : String) (v : Value) (m : Map String Value)
      → lookup j m ≢ none
      → lookup j (insert k v m) ≢ none
  present-insert k j v m h = rw (lookup-insert k j v m) (ground (arith, h))

  put_all-present :
      (j : String) (txs : List Transaction) (m : Map String Value)
      → lookup j m ≢ none
      → lookup j (put_all tx_hash txs m) ≢ none
  unfolding put_all
  put_all-present j [] m h = h
  put_all-present j (tx ∷ txs) m h =
      put_all-present j txs (insert (tx_hash tx) (transaction tx) m)
        (present-insert (tx_hash tx) j _ m h)

  put_all-All :
      (txs : List Transaction) (m : Map String Value)
      → All (λ tx. lookup (tx_hash tx) (put_all tx_hash txs m) ≢ none) txs
  unfolding put_all
  put_all-All [] m = tt
  put_all-All (tx ∷ txs) m = (
    put_all-present (tx_hash tx) txs (insert (tx_hash tx) (transaction tx) m) (
        rw (lookup-insert (tx_hash tx) (tx_hash tx) (transaction tx) m, ==_self (tx_hash tx))
          (λ e. cc)),
    put_all-All txs (insert (tx_hash tx) (transaction tx) m),
  )

  put_all_sound :
      (txs : List Transaction) (m : Map String Value)
      → All (λ tx. of (tx_hash tx) ≡ transaction tx) txs
      → All (λ (e : String × Value). of e.0 ≡ e.1) m
      → All (λ (e : String × Value). of e.0 ≡ e.1) (put_all tx_hash txs m)
  unfolding put_all
  put_all_sound [] m k s = s
  put_all_sound (tx ∷ txs) m k s =
      put_all_sound txs (insert (tx_hash tx) (transaction tx) m) k.1
        (All-insert (λ (e : String × Value). of e.0 ≡ e.1) (tx_hash tx) (transaction tx) m s k.0)

  -- The database behind the write of a block.
  abbrev appended : Block → Database → Database
  appended b db = record {
    blocks =
        put_all tx_hash b.transactions (insert (header_hash b.header) (header b.header) db.blocks);
    numbers = insert b.header.height (header_hash b.header) db.numbers;
    last_height = some b.header.height;
    tx_hashs = insert b.header.height (map tx_hash b.transactions) db.tx_hashs;
  }

  write_all-append_block :
      (b : Block) (db : Database)
      → write_all (append_block header_hash tx_hash b) db ≡ appended b db
  unfolding append_block write_all
  write_all-append_block b db = write_all-txs tx_hash b.transactions _ _

  older-IsStored :
      (b c : Block) (db : Database)
      → c.header.height < b.header.height
      → IsStored db c
      → IsStored (appended b db) c
  older-IsStored b c db older s =
      let other : eqb b.header.height c.header.height ≡ false = ground (arith, older) in
      let kept : (j : String) → lookup j db.blocks ≢ none → lookup j (appended b db).blocks ≢ none =
        λ j h.
          put_all-present j b.transactions _
            (present-insert (header_hash b.header) j (header b.header) db.blocks h) in
      record {
        number =
            rw
              (
                lookup-insert b.header.height c.header.height (header_hash b.header) db.numbers,
                other,
              )
              s.number;
        head = kept (header_hash c.header) s.head;
        hashs =
            rw
              (
                lookup-insert b.header.height c.header.height (map tx_hash b.transactions)
                    db.tx_hashs,
                other,
              )
              s.hashs;
        txs = All-map (λ tx h. kept (tx_hash tx) h) c.transactions s.txs;
      }

  new-IsStored : (b : Block) (db : Database) → IsStored (appended b db) b
  new-IsStored b db = record {
    number = lookup-insert_self b.header.height (header_hash b.header) db.numbers;
    head =
        put_all-present (header_hash b.header) b.transactions _
          (rw (lookup-insert_self (header_hash b.header) (header b.header) db.blocks) (λ e. cc));
    hashs = lookup-insert_self b.header.height (map tx_hash b.transactions) db.tx_hashs;
    txs = put_all-All b.transactions (insert (header_hash b.header) (header b.header) db.blocks);
  }

  pub append_block-Holds :
      (b : Block) (db : Database) (chain : List Block)
      → Holds db chain
      → b.header.height ≡ length chain
      → IsKnown b
      → Holds (write_all (append_block header_hash tx_hash b) db) (b ∷ chain)
  append_block-Holds b db chain h next k = rw (write_all-append_block b db) (record {
    sound = put_all_sound b.transactions _ k.1 (
        All-insert (λ (e : String × Value). of e.0 ≡ e.1) (header_hash b.header) (header b.header)
          db.blocks h.sound k.0);
    last = refl;
    stored = (
      new-IsStored b db,
      All-map (λ c (older, s). older-IsStored b c db (omega (arith, older, next)) s) chain
          (All-both _ _ chain (IsNumbered-below chain h.heights) h.stored),
    );
    heights = (next, h.heights);
    known = (k, h.known);
  })
