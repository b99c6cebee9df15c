-- ===== src/Lbft/Instances.antt =====
-- The map of instances of core/consensus/lbft/lbft.go, and `addCommittedReqeustBatch`, which removes
-- the instance of a committed batch, moves the counters and runs the checkpoint. The hash of a batch
-- is a parameter; `late` says that the block timeout of an instance has passed.
pub mod Arrives
mod Tests
use l.Base.{
  ℕ, ◌-◌, ◌<◌, Bool, true, false, ◌&&◌, String, Option, none, some, Map, lookup, insert, delete,
  ltb, if◌then◌else◌, string_eq, nat_eq,
}
use l.Lbft.Message.{RequestBatch, Message, pre_prepare, key}
use l.Lbft.Counters.{Counters, update_last_height_num, update_last_seq_no, update_verify_seq_no}
use l.Lbft.Checkpoint.{State, checkpoint}
use l.Lbft.Core.{Core, new_core, start, stop, is_cross}

-- `lbftCores` and `concurrentCntTo`.
pub record Instances : Type 0 where
  pub cores : Map String Core
  pub concurrent_cnt_to : ℕ

abbrev pub found_or_new : String → Option Core → Core
found_or_new name none = new_core name
found_or_new name (some core) = core

pub get_instance : String → Instances → Instances × Core
get_instance name s =
    let core = found_or_new name (lookup name s.cores) in
    (record s { cores = insert name core s.cores }, core)

pub has_instance : String → Instances → Bool
has_instance name s = elim (lookup name s.cores) [ none ↦ false | some _ ↦ true ]

-- `recvMessage`: a PrePrepare starts the instance. The message itself goes to the instance's channel.
pub recv_message : Bool → Message → Core → Core
recv_message late (pre_prepare pp) core = start late core
recv_message late _ core = core

pub handle_lbft_core_msg : Bool → String → Message → Instances → Instances
unfolding recv_message
handle_lbft_core_msg late name msg s = record s {
  cores = insert name (recv_message late msg (found_or_new name (lookup name s.cores))) s.cores;
}

-- The instance leaves the map; it is stopped, and returned here as it is then.
unfoldable pub remove_instance : String → Instances → Instances × Option Core
remove_instance name s = elim (lookup name s.cores) [
  | none ↦ (s, none)
  | some core ↦ (
    record {
      cores = delete name s.cores;
      concurrent_cnt_to =
          if ltb 0 s.concurrent_cnt_to && is_cross core
          then s.concurrent_cnt_to - 1
          else s.concurrent_cnt_to;
    },
    some (stop core),
  )
]

-- What a committed batch changes.
pub record Arrivals : Type 0 where
  pub instances : Instances
  pub batches : Map ℕ RequestBatch
  pub counters : Counters

-- The batches and the executed number are those that the checkpoint leaves; what it did is returned
-- beside them.
unfoldable pub after_checkpoint :
    Instances
    → Counters
    → Option (State RequestBatch)
    → Option (Arrivals × Option (State RequestBatch))
after_checkpoint left counters none = none
after_checkpoint left counters (some s) = some (
  record {
    instances = left;
    batches = s.committed;
    counters = record counters { exec_seq_no = s.exec };
  },
  some s,
)

unfoldable pub add_committed_request_batch :
    (RequestBatch → String)
    → ℕ
    → ℕ
    → RequestBatch
    → Arrivals
    → Option (Arrivals × Option (State RequestBatch))
unfolding remove_instance after_checkpoint
add_committed_request_batch hash k seq_no batch a =
    let (left, stopped) = remove_instance (key hash batch) a.instances in
    let counters =
      update_verify_seq_no seq_no
        (update_last_seq_no seq_no (update_last_height_num batch.height a.counters)) in
    elim (lookup seq_no a.batches) [
      | some _ ↦ some (record a { instances = left }, none)
      | none ↦
          after_checkpoint left counters
            (checkpoint k (insert seq_no batch a.batches) counters.exec_seq_no)
    ]
