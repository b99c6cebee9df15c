-- ===== src/Lbft/Instances/Arrives.antt =====
-- What a committed batch that is new does to a replica.
use l.Base.{
  ℕ, ◌+◌, ◌*◌, ◌≤◌, ◌<◌, ◌^◌, ◌≡◌, refl, ap, ◌∙◌, String, Option, none, some, arith, Map, lookup,
  insert, ltb, if◌then◌else◌, string_eq, nat_eq, IsDistinct, insert-IsDistinct, All, lookup-delete,
  ==_self, Option-cases, inl, inr,
}
use l.Lbft.Message.{RequestBatch, key}
use l.Lbft.Counters.{Counters, update_last_height_num, update_last_seq_no, update_verify_seq_no}
use l.Lbft.Counters.Laws.{update_last_height_num-eq, update_seq_nos-max}
use l.Lbft.Checkpoint.{State, checkpoint, sorted_keys, start_exec}
use l.Lbft.Checkpoint.Delivers.{InOrder, checkpoint-InOrder}
use l.Lbft.Instances.{
  Instances, Arrivals, remove_instance, after_checkpoint, add_committed_request_batch,
}

removed_gone : (name : String) (s : Instances) → lookup name (remove_instance name s).0.cores ≡ none
unfolding remove_instance
removed_gone name s = elim (Option-cases (lookup name s.cores)) [
  | inl missing ↦ rw (missing, remove_instance) missing
  | inr (c, found) ↦
      rw (found, remove_instance) (rw (lookup-delete name name s.cores, ==_self name) refl)
]

-- The counters of a replica are words, the sequence numbers below 2 ^ 63.
pub record IsSmall (c : Counters) : Type 0 where
  pub height : c.last_height < 2 ^ 32
  pub last : c.last_seq_no < 2 ^ 63
  pub verified : c.verify_seq_no < 2 ^ 63

moved : ℕ → ℕ → Counters → Counters
moved n h c = record c {
  last_height = h;
  last_seq_no = if ltb c.last_seq_no n then n else c.last_seq_no;
  verify_seq_no = if ltb c.verify_seq_no n then n else c.verify_seq_no;
}

moved_counters :
    (n h : ℕ) (c : Counters)
    → n < 2 ^ 63
    → h < 2 ^ 32
    → IsSmall c
    → update_verify_seq_no n (update_last_seq_no n (update_last_height_num h c)) ≡ moved n h c
unfolding moved
moved_counters n h c small word i =
    rw (update_last_height_num-eq h c word i.height)
      (update_seq_nos-max n (record c { last_height = h }) small i.last i.verified)

filed :
    (left : Instances) (c m : Counters) (k : ℕ) (batches : Map ℕ RequestBatch)
    (s : State RequestBatch)
    → c ≡ m
    → checkpoint k batches m.exec_seq_no ≡ some s
    → after_checkpoint left c (checkpoint k batches c.exec_seq_no)
      ≡ some (
        record {
          instances = left;
          batches = s.committed;
          counters = record m { exec_seq_no = s.exec };
        },
        some s,
      )
unfolding after_checkpoint
filed left c m k batches s same checked =
    ap (λ (d : Counters). after_checkpoint left d (checkpoint k batches d.exec_seq_no)) same
    ∙ ap (after_checkpoint left m) checked

-- What is left of a replica when a new batch has been added.
pub record Arrived (hash : RequestBatch → String) (n : ℕ) (batch : RequestBatch) (a : Arrivals)
    (r : Option (Arrivals × Option (State RequestBatch))) : Type 0 where
  pub after : Arrivals
  pub done : State RequestBatch
  pub returned : r ≡ some (after, some done)
  pub removed : lookup (key hash batch) after.instances.cores ≡ none
  pub in_order :
      let batches = insert n batch a.batches in
      InOrder batches (start_exec (sorted_keys batches) a.counters.exec_seq_no) done
  pub executed : after.counters.exec_seq_no ≡ done.exec
  pub last :
      (n ≤ after.counters.last_seq_no) × (a.counters.last_seq_no ≤ after.counters.last_seq_no)

-- A committed batch with a new number, in the window that the checkpoint asks for, is added without
-- a panic: its instance leaves the map, all batches that now follow the executed number are written
-- in order, and the last sequence number is neither below the batch's nor below what it was.
pub add_committed_request_batch-Arrived :
    (hash : RequestBatch → String) (k n : ℕ) (batch : RequestBatch) (a : Arrivals)
    → lookup n a.batches ≡ none
    → IsDistinct a.batches
    → n < 2 ^ 63
    → batch.height < 2 ^ 32
    → IsSmall a.counters
    → All (λ x. x + k + 1 < 2 ^ 64) (sorted_keys (insert n batch a.batches))
    → start_exec (sorted_keys (insert n batch a.batches)) a.counters.exec_seq_no + 2 * k + 3
      < 2 ^ 64
    → All
        (λ x.
          x ≤ start_exec (sorted_keys (insert n batch a.batches)) a.counters.exec_seq_no + k + 1)
        (sorted_keys (insert n batch a.batches))
    → Arrived hash n batch a (add_committed_request_batch hash k n batch a)
unfolding add_committed_request_batch moved
add_committed_request_batch-Arrived hash k n batch a new d small word i far room window =
    let c = moved_counters n batch.height a.counters small word i in
    let (s, checked, order) =
      checkpoint-InOrder k (insert n batch a.batches) a.counters.exec_seq_no
        (insert-IsDistinct n batch a.batches d) far room window in
    let left = (remove_instance (key hash batch) a.instances).0 in
    let m = moved n batch.height a.counters in
    record {
      after = record {
        instances = left;
        batches = s.committed;
        counters = record m { exec_seq_no = s.exec };
      };
      done = s;
      returned =
          rw (new, add_committed_request_batch)
            (filed left _ m k (insert n batch a.batches) s c checked);
      removed = removed_gone (key hash batch) a.instances;
      in_order = order;
      executed = refl;
      last = ground arith;
    }
