-- ===== src/BlockStorage/Verifies.antt =====
-- The queries on a database that holds a chain, and the check of the chain.
use l.Base.{
  ℕ, ◌≤◌, ◌≡◌, ◌≢◌, inl, inr, refl, ap, sym, ◌∙◌, subst, true, false, String, none, some, List, [],
  ◌∷◌, map, lookup, All-lookup, All-both, ltb, string_eq, nat_eq, ==_self, arith, All, All-map,
  Option-cases, length,
}
use l.Transaction.{Transaction}
use l.Ledger.Store.{Block, BlockHeader}
use l.BlockStorage.{
  Value, header, transaction, Database, write_all, append_block, get_block_by_hash,
  get_block_hash_by_number, get_block_by_number, get_transaction_hash_list,
  get_transaction_by_tx_hash, get_transactions_by_hash_list, get_transactions_by_number,
  get_transactions_by_hash, get_last_block_hash, verify_below, verify_chain,
}
use l.BlockStorage.Reads.{
  wanted, IsNumbered, IsNumbered-below, IsKnown, IsStored, Holds, append_block-Holds,
}

-- Each block names the hash of the one before.
abbrev pub IsLinked : (BlockHeader → String) → List Block → Type 0
IsLinked header_hash [] = Unit {0}
IsLinked header_hash (b ∷ []) = Unit {0}
IsLinked header_hash (b ∷ c ∷ chain) =
    (header_hash c.header ≡ b.header.previous_hash) × IsLinked header_hash (c ∷ chain)

module _ (header_hash : BlockHeader → String) (tx_hash : Transaction → String) (of : String → Value)
    (garbled : Transaction → BlockHeader) (garbled_tx : BlockHeader → Transaction) where
  pub record IsReadable (db : Database) (b : Block) : Type 0 where
    pub by_hash : get_block_by_hash garbled (header_hash b.header) db ≡ some b.header
    pub by_number : get_block_by_number garbled b.header.height db ≡ some b.header
    pub txs_by_number :
        (type : ℕ)
        → get_transactions_by_number garbled_tx b.header.height type db
          ≡ some (wanted type b.transactions)
    pub txs_by_hash :
        (type : ℕ)
        → get_transactions_by_hash garbled_tx garbled (header_hash b.header) type db
          ≡ some (wanted type b.transactions)

  value_at :
      (k : String) (db : Database) (v : Value)
      → All (λ (e : String × Value). of e.0 ≡ e.1) db.blocks
      → of k ≡ v
      → lookup k db.blocks ≢ none
      → lookup k db.blocks ≡ some v
  value_at k db v sound e there = elim (Option-cases (lookup k db.blocks)) [
    | inl missing ↦ absurd (there missing)
    | inr (w, found) ↦
        found
        ∙ ap some
            (sym (All-lookup (λ (e : String × Value). of e.0 ≡ e.1) k w db.blocks sound found) ∙ e)
  ]

  get_tx :
      (tx : Transaction) (db : Database)
      → lookup (tx_hash tx) db.blocks ≡ some (transaction tx)
      → get_transaction_by_tx_hash garbled_tx (tx_hash tx) db ≡ some tx
  unfolding get_transaction_by_tx_hash
  get_tx tx db e = ground (arith, e)

  hash_list-wanted :
      (type : ℕ) (db : Database) (txs : List Transaction)
      → All (λ tx. lookup (tx_hash tx) db.blocks ≡ some (transaction tx)) txs
      → get_transactions_by_hash_list garbled_tx (map tx_hash txs) type db ≡ some (wanted type txs)
  unfolding wanted get_transactions_by_hash_list
  hash_list-wanted type db [] a = refl
  hash_list-wanted type db (tx ∷ txs) a =
      rw (get_tx tx db a.0, hash_list-wanted type db txs a.1, get_transactions_by_hash_list) refl

  stored-IsReadable :
      (db : Database) (b : Block) (current : ℕ)
      → All (λ (e : String × Value). of e.0 ≡ e.1) db.blocks
      → db.last_height ≡ some current
      → b.header.height ≤ current
      → IsKnown header_hash tx_hash of b
      → IsStored header_hash tx_hash of db b
      → IsReadable db b
  unfolding get_block_by_hash get_block_hash_by_number get_transaction_hash_list get_block_by_number
      get_transactions_by_number wanted get_transactions_by_hash
  stored-IsReadable db b current sound last low k s =
      let head = value_at (header_hash b.header) db (header b.header) sound k.0 s.head in
      let reached : ltb current b.header.height ≡ false = ground (arith, low) in
      let found : (type : ℕ)
          → get_transactions_by_hash_list garbled_tx (map tx_hash b.transactions) type db
            ≡ some (wanted type b.transactions) =
        λ type. hash_list-wanted type db b.transactions (
          All-map (λ tx (there, e). value_at (tx_hash tx) db (transaction tx) sound e there)
            b.transactions (All-both _ _ b.transactions s.txs k.1)) in
      let by_hash : get_block_by_hash garbled (header_hash b.header) db ≡ some b.header =
        ground (arith, head) in
      let number : get_block_hash_by_number garbled b.header.height db
          ≡ some (header_hash b.header) =
        ground (arith, last, reached, s.number) in
      let by_number : get_block_by_number garbled b.header.height db ≡ some b.header =
        rw (number, get_block_by_number) by_hash in
      let list : get_transaction_hash_list b.header.height db ≡ some (map tx_hash b.transactions) =
        ground (arith, s.hashs) in
      let by_txs : (type : ℕ)
          → get_transactions_by_number garbled_tx b.header.height type db
            ≡ some (wanted type b.transactions) =
        λ type. rw (list, get_transactions_by_number) (found type) in
      record {
        by_hash = by_hash;
        by_number = by_number;
        txs_by_number = λ type. by_txs type;
        txs_by_hash = λ type. rw (by_hash, get_transactions_by_hash) (by_txs type);
      }

  -- All blocks of a chain are read back as they were appended.
  Holds-IsReadable :
      (db : Database) (b : Block) (chain : List Block)
      → Holds header_hash tx_hash of db (b ∷ chain)
      → All (IsReadable db) (b ∷ chain)
  Holds-IsReadable db b chain h =
      All-map
        (λ c (below, (k, s)).
          stored-IsReadable db c b.header.height h.sound h.last (omega (arith, below, h.heights.0))
            k s)
        (b ∷ chain)
        (All-both _ _ (b ∷ chain) (IsNumbered-below (b ∷ chain) h.heights)
          (All-both _ _ (b ∷ chain) h.known h.stored))

  linked-verify_below :
      (db : Database) (b : Block) (chain : List Block)
      → IsNumbered (b ∷ chain)
      → IsLinked header_hash (b ∷ chain)
      → All (IsReadable db) chain
      → verify_below header_hash garbled (length chain) b.header db ≡ true
  unfolding verify_below
  linked-verify_below db b [] n linked r = refl
  linked-verify_below db b (c ∷ chain) n linked r =
      let at : get_block_by_number garbled (length chain) db ≡ some c.header =
        subst (λ i. get_block_by_number garbled i db ≡ some c.header) n.1.0 r.0.by_number in
      rw (at, verify_below, linked.0, ==_self b.header.previous_hash)
        (linked-verify_below db c chain n.1 linked.1 r.1)

  -- Where the database holds a chain, and a block with the next height is written, no hash of which
  -- belongs to another header or transaction, it holds the longer chain, of which every block and its
  -- transactions of each type are read back by its height and by its hash; the hash of the last block
  -- is the new one's; and `VerifyChain` passes if each block names the hash of the one before.
  pub append_block-IsReadable :
      (b : Block) (db : Database) (chain : List Block)
      → Holds header_hash tx_hash of db chain
      → b.header.height ≡ length chain
      → IsKnown header_hash tx_hash of b
      → let db' = write_all (append_block header_hash tx_hash b) db in
        Holds header_hash tx_hash of db' (b ∷ chain)
        × All (IsReadable db') (b ∷ chain)
        × (get_last_block_hash header_hash garbled db' ≡ some (header_hash b.header))
        × (IsLinked header_hash (b ∷ chain) → verify_chain header_hash garbled db' ≡ true)
  unfolding get_last_block_hash verify_chain
  append_block-IsReadable b db chain h next k =
      let db' = write_all (append_block header_hash tx_hash b) db in
      let h' = append_block-Holds header_hash tx_hash of b db chain h next k in
      let r = Holds-IsReadable db' b chain h' in
      (
        h',
        r,
        ground (arith, h'.last, r.0.by_number),
        λ linked.
            let below : verify_below header_hash garbled b.header.height b.header db' ≡ true =
              subst (λ i. verify_below header_hash garbled i b.header db' ≡ true) (sym next)
                (linked-verify_below db' b chain h'.heights linked r.1) in
            ground (arith, h'.last, r.0.by_number, below),
      )
