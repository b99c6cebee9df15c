-- ===== src/Merge/TxMerge.antt =====
-- core/merge/merge.go: the transactions that await their merge are netted for each pair of chains, and
-- what is left of each pair goes to the parent chain, again and again until it is acknowledged. A key
-- of the map, two coordinates in hex with a bar between, is the pair of them. The database takes every
-- write. The hashes and the address of a chain are parameters; the signature of a merged transaction,
-- which carries an address, stands beside it. The ticker's loop is left out.
pub mod Netted
pub mod Settles
pub mod Made
mod Tests
use Prim.Native.String
use l.Base.{
  ℕ, ℤ, pos, negsuc, pos_part, neg_part, ◌+ℤ◌, ◌-ℤ◌, ◌+◌, ◌≡◌, refl, ap₂, Bool, true, false, not,
  ◌&&◌, String, Option, none, some, List, [], ◌∷◌, ◌++◌, Map, lookup, insert, delete, if◌then◌else◌,
  string_eq, pair_eq, ◌==◌, ltb_ℤ, Comparable, arith, length, eqb,
}
use l.Transaction.{Transaction, merged}
use l.Merge.Storage.{Storage, put_txs_hash_by_merge_tx_hash}

-- `amountTimeHash`.
pub record AmountTimeHash : Type 0 where
  pub amount : ℤ
  pub fee : ℤ
  pub tx_time : ℕ
  pub txs_hash : List String

-- The body of the loop over the transactions. The amount of a new entry is the transaction's own
-- `big.Int`, which the later sums change in place; the transaction is not read again.
unfoldable pub net_tx :
    String
    → Transaction
    → Map (String × String) AmountTimeHash
    → Map (String × String) AmountTimeHash
net_tx hash tx m =
    let key : String × String = (tx.from_chain, tx.to_chain) in
    let key1 : String × String = (tx.to_chain, tx.from_chain) in
    elim (lookup key m) [
      | some ath ↦
          insert key
            (record ath {
              amount = ath.amount +ℤ tx.amount;
              fee = ath.fee +ℤ tx.fee;
              tx_time = tx.create_time;
              txs_hash = ath.txs_hash ++ (hash ∷ []);
            })
            m
      | none ↦ elim (lookup key1 m) [
        | some ath ↦
            insert key1
              (record ath {
                amount = ath.amount -ℤ tx.amount;
                fee = ath.fee -ℤ tx.fee;
                tx_time = tx.create_time;
                txs_hash = ath.txs_hash ++ (hash ∷ []);
              })
              m
        | none ↦
            insert key
              (record {
                amount = tx.amount;
                fee = tx.fee;
                tx_time = tx.create_time;
                txs_hash = hash ∷ [];
              })
              m
      ]
    ]

unfoldable pub net_txs :
    (Transaction → String)
    → List Transaction
    → Map (String × String) AmountTimeHash
    → Map (String × String) AmountTimeHash
unfolding net_tx
net_txs hash [] m = m
net_txs hash (tx ∷ txs) m = net_txs hash txs (net_tx (hash tx) tx m)

-- `ParentCoorinate` of a coordinate in hex: its last byte is dropped. An empty one is a panic.
unfoldable pub parent : String → Option String
parent String.[] = none
parent (String.◌∷◌ c String.[]) = none
parent (String.◌∷◌ c (String.◌∷◌ d String.[])) = some ""
parent (String.◌∷◌ c (String.◌∷◌ d (String.◌∷◌ e rest))) = elim (parent (String.◌∷◌ e rest)) [
  | none ↦ none
  | some front ↦ some (String.◌∷◌ c (String.◌∷◌ d front))
]

pub record MergedTx : Type 0 where
  pub tx : Transaction
  pub signature : String  -- the address that stands in its place

abbrev pub abs_ℤ : ℤ → ℤ
abs_ℤ a = pos (pos_part a + neg_part a)

-- From the chain that owes to the other.
abbrev pub direction : (String × String) × AmountTimeHash → String × String
direction ((from, to), v) = if ltb_ℤ v.amount (pos 0) then (to, from) else (from, to)

module _ (own : String) (address : String → String) where
  unfoldable pub maketransaction : String → String → ℤ → ℤ → ℕ → Option MergedTx
  unfolding parent
  maketransaction fromchain tochain amount fee time_stamp = elim (parent fromchain) [
    | none ↦ none
    | some from ↦ elim (parent tochain) [
      | none ↦ none
      | some to ↦ some (record {
        tx = record {
          from_chain = from;
          to_chain = to;
          type = merged;
          nonce = 0;
          sender = address own;
          recipient = address tochain;
          amount = amount;
          fee = fee;
          create_time = time_stamp;
        };
        signature = address fromchain;
      })
    ]
  ]

  unfoldable pub make_one : (String × String) × AmountTimeHash → Option MergedTx
  unfolding maketransaction
  make_one (key, v) =
      let (from, to) = direction (key, v) in
      maketransaction from to (abs_ℤ v.amount) v.fee v.tx_time

pub record UploadPayload : Type 0 where
  pub repeat_merge_txs : List MergedTx
  pub merge_txs : List MergedTx

pub record TxMerge : Type 0 where
  pub storage : Storage
  pub backup_txs : Map String MergedTx
  pub sent : List (String × UploadPayload)  -- to the parent chain
  pub broadcast : List Transaction

unfoldable pub get_backup_txs : Map String MergedTx → List MergedTx
get_backup_txs [] = []
get_backup_txs ((hash, tx) ∷ backups) = tx ∷ get_backup_txs backups

unfoldable pub delete_backup_tx : String → TxMerge → TxMerge
delete_backup_tx hash tm = record tm { backup_txs = delete hash tm.backup_txs }

-- `recvEvent`: a ChainAckMergeTxsMsg, the other messages delete the backup only.
unfoldable pub recv_event : (Transaction → String) → Bool → Transaction → TxMerge → TxMerge
unfolding delete_backup_tx
recv_event hash acks tx tm =
    let tm' = delete_backup_tx (hash tx) tm in
    if acks then record tm' { broadcast = tm'.broadcast ++ (tx ∷ []) } else tm'

module _ (own : String) (address : String → String) (hash : Transaction → String)
    (merged_hash : MergedTx → String) where
  -- The loop over the entries: each makes a transaction, under whose hash the netted ones are stored.
  unfoldable pub make_all :
      Map (String × String) AmountTimeHash → Storage → Option (List MergedTx × Storage)
  unfolding make_one put_txs_hash_by_merge_tx_hash
  make_all [] s = some ([], s)
  make_all ((key, v) ∷ m) s = elim (make_one own address (key, v)) [
    | none ↦ none
    | some made ↦
        elim (make_all m (put_txs_hash_by_merge_tx_hash (merged_hash made) v.txs_hash s)) [
          | none ↦ none
          | some (later, s') ↦ some (made ∷ later, s')
        ]
  ]

  unfoldable pub back_up : List MergedTx → Map String MergedTx → Map String MergedTx
  back_up [] backups = backups
  back_up (made ∷ later) backups = back_up later (insert (merged_hash made) made backups)

  unfoldable pub merger_tx : List Transaction → TxMerge → Option TxMerge
  unfolding net_txs make_all back_up get_backup_txs parent
  merger_tx [] tm = some tm
  merger_tx (tx ∷ txs) tm = elim (make_all (net_txs hash (tx ∷ txs) []) tm.storage) [
    | none ↦ none
    | some (transactions, s) ↦ elim (parent own) [
      | none ↦ none
      | some dst_chain_id ↦ some (record tm {
        storage = s;
        backup_txs = back_up transactions tm.backup_txs;
        sent =
            tm.sent
            ++ ((
              dst_chain_id,
              record { repeat_merge_txs = get_backup_txs tm.backup_txs; merge_txs = transactions },
            )
                ∷ []);
      })
    ]
  ]
