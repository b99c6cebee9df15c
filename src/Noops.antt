-- ===== src/Noops.antt =====
-- core/consensus/noops/noops.go, the consenter of a single node. The channels take every value; the
-- groups of the pool, the clock and what `VerifyTxsInConsensus` answers come with a tick. `Stop` and the
-- end of the loop, which clears `exit`, are one step.
pub mod Silent
mod Tests
use l.Base.{ℕ, ◌+◌, ◌%◌, ◌^◌, Bool, true, false, not, ◌&&◌, List, [], ◌∷◌, ◌++◌, if◌then◌else◌}
use l.Transaction.{Transaction}
use l.Lbft.Blocks.{OutputTxs}

-- `running`: `exit` is not nil; `timer`: the timer of blocks is running; `committed`: what was sent.
pub record Noops : Type 0 where
  pub running : Bool
  pub timer : Bool
  pub seq_no : ℕ  -- uint64
  pub height : ℕ  -- uint32
  pub committed : List OutputTxs

abbrev pub unarmed : Noops → Noops
unarmed s = record s { timer = false }

abbrev pub output : ℕ → ℕ → ℕ → List Transaction → OutputTxs
output time seq_no height txs = record {
  outputs =
      record {
        skip = false;
        is_local_chain = false;
        seq_no = seq_no;
        time = time;
        transactions = txs;
      }
      ∷ [];
  height = height;
}

unfoldable pub make_block : ℕ → List Transaction → Noops → Noops
make_block time txs s =
    let seq_no' = (s.seq_no + 1) % 2 ^ 64 in
    let height' = (s.height + 1) % 2 ^ 32 in
    record s {
      timer = true;
      seq_no = seq_no';
      height = height';
      committed = s.committed ++ (output time seq_no' height' txs ∷ []);
    }

unfoldable pub process_block :
    (List Transaction → Bool) → ℕ → List (List Transaction) → Noops → Noops
unfolding make_block
process_block verify time (all ∷ txs ∷ []) s =
    if verify txs then make_block time txs s else unarmed s
process_block verify time txss s = unarmed s

pub data Event : Type 0 where
  start : Event
  stop : Event
  tick : (List Transaction → Bool) → ℕ → List (List Transaction) → Event

-- A timer that is stopped does not tick.
unfoldable pub step : Event → Noops → Noops
unfolding process_block
step start s = if s.running then s else record s { running = true; timer = true }
step stop s = record s { running = false }
step (tick verify time txss) s =
    if s.running && s.timer then process_block verify time txss s else s

unfoldable pub run : List Event → Noops → Noops
unfolding step
run [] s = s
run (e ∷ es) s = run es (step e s)
