-- ===== src/Merge/Filter.antt =====
-- core/merge/filter.go and parser.go, with cache/cachetable.go and cache/cache_txs.go: the parent chain
-- counts, for each chain below it, which peers have sent a merged transaction, acknowledges it when
-- more than half of them have, and processes it. The key of a peer's vote, its name before the hash
-- of the transaction, is the pair of them, as all hashes have one length. `hash` is `SignHash`, and
-- `contains` is `strings.Contains`. Goroutines and channels are left out: an event is handled at once.
pub mod Majority
mod Tests
use Prim.Native.String.{◌++◌ as append}
use l.Base.{
  ℕ, ◌+◌, ◌/◌, ◌%◌, ◌^◌, Bool, true, false, not, ◌&&◌, String, Option, none, some, List, [], ◌∷◌,
  ◌++◌, Map, lookup, insert, delete, ltb, if◌then◌else◌, string_eq, pair_eq, ◌==◌,
}
use l.Transaction.{Transaction}

pub record CountDot : Type 0 where
  pub cnt : ℕ  -- uint32
  pub flag : Bool

pub record PeerTx : Type 0 where
  pub chain_id : String
  pub peer_id : String
  pub tx : Transaction
  pub valid : Bool

-- `sent_back` is what the callback got.
pub record ChainCacheTable : Type 0 where
  pub items : List (String × String)
  pub count_dot : Map String CountDot
  pub sent_back : List PeerTx

abbrev pub new_chain_cache_table : ChainCacheTable
new_chain_cache_table = record { items = []; count_dot = []; sent_back = [] }

-- `Exists` of the table.
unfoldable pub exists : String × String → List (String × String) → Bool
exists key [] = false
exists key (k ∷ keys) = let rest = exists key keys in if k == key then true else rest

-- `Del` of the table, when the life of an item is over.
unfoldable pub expire : String × String → List (String × String) → List (String × String)
expire key [] = []
expire key (k ∷ keys) = let rest = expire key keys in if k == key then rest else k ∷ rest

abbrev pub new_count_dot : CountDot
new_count_dot = record { cnt = 0; flag = false }

abbrev pub dot_or_new : Option CountDot → CountDot
dot_or_new none = new_count_dot
dot_or_new (some dot) = dot

module _ (hash : Transaction → String) where
  -- The count of a transaction that is sent back is deleted.
  unfoldable pub handle_tx : ℕ → PeerTx → ChainCacheTable → ChainCacheTable
  unfolding exists
  handle_tx peer_num p cct =
      let tx_hash = hash p.tx in
      let key : String × String = (p.peer_id, tx_hash) in
      let dot = dot_or_new (lookup tx_hash cct.count_dot) in
      let dots = insert tx_hash dot cct.count_dot in
      let cnt = (dot.cnt + 1) % 2 ^ 32 in
      if exists key cct.items
      then record cct { count_dot = dots }
      else if ltb (peer_num / 2) cnt && not dot.flag
      then record {
        items = key ∷ cct.items;
        count_dot = delete tx_hash dots;
        sent_back = cct.sent_back ++ (p ∷ []);
      }
      else record cct {
        items = key ∷ cct.items;
        count_dot = insert tx_hash (record dot { cnt = cnt }) dots;
      }

  unfoldable pub has_handled_tx :
      (String → String → Bool) → Map String String → String → Transaction → Bool
  has_handled_tx contains tx_cache chain_id tx = elim (lookup (hash tx) tx_cache) [
    | none ↦ false
    | some chains ↦ contains chains chain_id
  ]

  unfoldable pub handle_all :
      ℕ → String → String → List Transaction → ChainCacheTable → ChainCacheTable
  unfolding handle_tx
  handle_all peer_num chain_id peer_id [] cct = cct
  handle_all peer_num chain_id peer_id (tx ∷ txs) cct = handle_all peer_num chain_id peer_id txs (
      handle_tx peer_num (record { chain_id = chain_id; peer_id = peer_id; tx = tx; valid = true })
        cct)

  -- The transactions that a chain sends again: those that are done are acknowledged as such.
  unfoldable pub repeat_all :
      (String → String → Bool)
      → Map String String
      → ℕ
      → String
      → String
      → List Transaction
      → ChainCacheTable
      → ChainCacheTable
  unfolding handle_tx has_handled_tx
  repeat_all contains tx_cache peer_num chain_id peer_id [] cct = cct
  repeat_all contains tx_cache peer_num chain_id peer_id (tx ∷ txs) cct =
      let handled =
        handle_tx peer_num
          (record { chain_id = chain_id; peer_id = peer_id; tx = tx; valid = true }) cct in
      let done : ChainCacheTable = record cct {
        sent_back =
            cct.sent_back
            ++ (record { chain_id = chain_id; peer_id = peer_id; tx = tx; valid = false } ∷ []);
      } in
      repeat_all contains tx_cache peer_num chain_id peer_id txs
        (if not (has_handled_tx contains tx_cache chain_id tx) then handled else done)

  unfoldable pub add_merge_txs :
      (String → String → Bool)
      → Map String String
      → ℕ
      → String
      → String
      → List Transaction
      → List Transaction
      → ChainCacheTable
      → ChainCacheTable
  unfolding repeat_all handle_all
  add_merge_txs contains tx_cache peer_num chain_id peer_id repeat_merge_txs merge_txs cct =
      handle_all peer_num chain_id peer_id merge_txs
        (repeat_all contains tx_cache peer_num chain_id peer_id repeat_merge_txs cct)

-- The parser of the parent chain: the cache, the acknowledgements, by whether they are for a
-- transaction that is done already, and what the block chain has got.
pub record TxParser : Type 0 where
  pub tx_cache : Map String String
  pub acks : List (PeerTx × Bool)
  pub processed : List Transaction

-- A transaction within one chain waits for the second of its two sides.
unfoldable pub handle_merge_tx : (Transaction → String) → PeerTx → TxParser → TxParser
handle_merge_tx hash p tp =
    let tx = p.tx in
    let acked : TxParser = record tp { acks = tp.acks ++ ((p, false) ∷ []) } in
    let processes : TxParser = record acked { processed = acked.processed ++ (tx ∷ []) } in
    let both : TxParser = elim (lookup (hash tx) acked.tx_cache) [
      | some value ↦ record processes {
        tx_cache = insert (hash tx) (append value p.chain_id) acked.tx_cache;
      }
      | none ↦ record acked { tx_cache = insert (hash tx) p.chain_id acked.tx_cache }
    ] in
    if not p.valid
    then record tp { acks = tp.acks ++ ((p, true) ∷ []) }
    else if tx.from_chain == tx.to_chain
    then both
    else processes
