-- ===== src/Merge/Storage.antt =====
-- core/ledger/merge/storage.go: the transactions that await their merge, by their time. What the
-- database keeps under `timeKey`, under a time and under a hash are three fields here, as these keys
-- differ in length; it takes every write. Serialization is left out, but for the bytes of the times,
-- which are in Merge.Times. The mutex makes each method one step.
pub mod Drains
pub mod Classified
mod Tests
use l.Base.{
  ℕ, ◌+◌, ◌*◌, ◌%◌, ◌^◌, Bool, true, false, not, String, Option, none, some, List, [], ◌∷◌, ◌++◌,
  Map, lookup, insert, delete, ltb, eqb, if◌then◌else◌, nat_eq, string_eq,
}
use l.Transaction.{Transaction}
use l.Lbft.Checkpoint.{insert_key}

pub record Storage : Type 0 where
  pub time_array : List ℕ
  pub m : Map ℕ (List Transaction)
  pub stored_times : List ℕ
  pub stored_txs : Map ℕ (List Transaction)
  pub stored_hashes : Map String (List String)

pub new_storage : List ℕ → Map ℕ (List Transaction) → Map String (List String) → Storage
new_storage times txs hashes = record {
  time_array = [];
  m = [];
  stored_times = times;
  stored_txs = txs;
  stored_hashes = hashes;
}

-- A missing key gives an empty list.
abbrev pub list_or_nil {ℓ} : {A : Type ℓ} → Option (List A) → List A
list_or_nil none = []
list_or_nil (some xs) = xs

abbrev pub get_tx_by_time : ℕ → Storage → List Transaction
get_tx_by_time time s = list_or_nil (lookup time s.stored_txs)

unfoldable pub contain : ℕ → List ℕ → Bool
contain n [] = false
contain n (x ∷ xs) = let rest = contain n xs in if eqb x n then true else rest

unfoldable pub persistence_transaction : Transaction → Storage → Storage
unfolding contain
persistence_transaction tx s = record s {
  time_array =
      if contain tx.create_time s.time_array
      then s.time_array
      else s.time_array ++ (tx.create_time ∷ []);
  m = insert tx.create_time (list_or_nil (lookup tx.create_time s.m) ++ (tx ∷ [])) s.m;
}

unfoldable pub persist_all : List Transaction → Storage → Storage
unfolding persistence_transaction
persist_all [] s = s
persist_all (tx ∷ txs) s = persist_all txs (persistence_transaction tx s)

-- `range storage.m`, with a write of each entry.
unfoldable pub write_all :
    Map ℕ (List Transaction) → Map ℕ (List Transaction) → Map ℕ (List Transaction)
write_all [] db = db
write_all ((time, txs) ∷ m) db = write_all m (insert time txs db)

unfoldable pub classified_transaction : List Transaction → Storage → Storage
unfolding persist_all write_all
classified_transaction txs s =
    let s' = persist_all txs (record s { time_array = s.stored_times }) in
    record s' { stored_txs = write_all s'.m s'.stored_txs; stored_times = s'.time_array }

-- `sort.Sort(utils.Times(array))`.
unfoldable pub sort_times : List ℕ → List ℕ
sort_times [] = []
sort_times (t ∷ ts) = insert_key t (sort_times ts)

unfoldable pub last_time : ℕ → List ℕ → ℕ
last_time t [] = t
last_time t (u ∷ us) = last_time u us

unfoldable pub check_txs_is_enough : ℕ → List ℕ → Bool
unfolding last_time
check_txs_is_enough delay [] = false
check_txs_is_enough delay (t ∷ ts) = ltb ((t + (2 * delay) % 2 ^ 32) % 2 ^ 32) (last_time t ts)

-- The loop over the sorted times; behind the last one an empty list of times is written.
unfoldable pub take_before : ℕ → List ℕ → Storage → List Transaction × Storage
take_before bound [] s = ([], record s { stored_times = [] })
take_before bound (t ∷ ts) s =
    let (txs, s') = take_before bound ts (record s { stored_txs = delete t s.stored_txs }) in
    if ltb t bound
    then (get_tx_by_time t s ++ txs, s')
    else ([], record s { stored_times = t ∷ ts })

abbrev pub first_time : List ℕ → ℕ
first_time [] = 0
first_time (t ∷ ts) = t

unfoldable pub get_merged_transaction : ℕ → Storage → List Transaction × Storage
unfolding sort_times check_txs_is_enough take_before
get_merged_transaction delay s =
    let array = sort_times s.stored_times in
    if not (check_txs_is_enough delay array)
    then ([], s)
    else take_before ((first_time array + delay) % 2 ^ 32) array s

unfoldable pub put_txs_hash_by_merge_tx_hash : String → List String → Storage → Storage
put_txs_hash_by_merge_tx_hash hash hashes s = record s {
  stored_hashes = insert hash hashes s.stored_hashes;
}

-- `none` is the error for a hash that is not there.
unfoldable pub get_txs_by_merge_tx_hash : String → Storage → Option (List String)
get_txs_by_merge_tx_hash hash s = lookup hash s.stored_hashes
