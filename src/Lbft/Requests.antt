-- ===== src/Lbft/Requests.antt =====
-- `submitRequestBatches` of core/consensus/lbft/lbft.go, and `handleRequestBatch`: the primary makes
-- batches of the groups of transactions that its pool gives it, and starts an instance for each. The
-- clock gives the id of the batches, and the hash of a batch is a parameter. What an instance does
-- with its batch, in a goroutine, is in Lbft.Core; `launched` holds the batches with their numbers.
-- Of the environment only the names of the replica, its primary and its chain are read here; the numbers
-- are those of `counters`.
pub mod Numbered
mod Tests
use l.Base.{
  ℕ, ◌+◌, ◌%◌, ◌^◌, Bool, true, false, not, ◌&&◌, String, Option, none, some, List, [], ◌∷◌, ◌++◌,
  Map, lookup, insert, ltb, eqb, if◌then◌else◌, string_eq,
}
use l.Transaction.{Transaction}
use l.Lbft.Message.{RequestBatch, key}
use l.Lbft.Counters.{Counters, incr_height_num, incr_seq_num, u32}
use l.Lbft.Core.{Core, Env, is_primary, is_valid}
use l.Lbft.Instances.{found_or_new}

pub record Requests : Type 0 where
  pub env : Env
  pub counters : Counters
  pub cores : Map String Core
  pub launched : List (ℕ × RequestBatch)

-- The latest of the times.
unfoldable pub latest : ℕ → List Transaction → ℕ
latest nano [] = nano
latest nano (tx ∷ txs) = latest (if ltb nano tx.create_time then tx.create_time else nano) txs

abbrev pub is_empty : List Transaction → Bool
is_empty [] = true
is_empty (tx ∷ txs) = false

abbrev pub batch_of : ℕ → ℕ → ℕ → List Transaction → RequestBatch
batch_of id index height txs = record {
  time = latest 0 txs;
  requests = txs;
  id = id;
  index = index % 2 ^ 32;
  height = height;
}

-- The loop over the groups. The first one with a transaction takes the next height.
unfoldable pub make_batches :
    ℕ → ℕ → List (List Transaction) → ℕ → Counters → Counters × List RequestBatch
unfolding latest incr_height_num
make_batches id index [] height c = (c, [])
make_batches id index (txs ∷ txss) height c =
    let takes = not (is_empty txs) && eqb height 0 in
    let c' = if takes then incr_height_num c else c in
    let height' = if takes then c'.height else height in
    let (c'', batches) = make_batches id (index + 1) txss height' c' in
    (c'', if is_empty txs then batches else batch_of id index height' txs ∷ batches)

module _ (hash : RequestBatch → String) where
  unfoldable pub handle_request_batch : RequestBatch → Requests → Requests
  unfolding incr_seq_num
  handle_request_batch batch s =
      let name = key hash batch in
      let counters = incr_seq_num s.counters in
      record s {
        cores = insert name (found_or_new name (lookup name s.cores)) s.cores;
        counters = counters;
        launched = s.launched ++ ((counters.seq_no, batch) ∷ []);
      }

  unfoldable pub handle_all : List RequestBatch → Requests → Requests
  unfolding handle_request_batch is_valid
  handle_all [] s = s
  handle_all (batch ∷ batches) s =
      handle_all batches (if is_valid s.env batch true then handle_request_batch batch s else s)

  -- `txss` is what FetchGroupingTxsInTxPool returns, and `id` the time.
  unfoldable pub submit_request_batches : ℕ → List (List Transaction) → Requests → Requests
  unfolding make_batches handle_all is_primary
  submit_request_batches id txss s =
      let (counters, batches) = make_batches id 0 txss 0 s.counters in
      if not (is_primary s.env) then s else handle_all batches (record s { counters = counters })
