-- ===== src/Lbft/Checkpoint.antt =====
-- `checkpoint` of core/consensus/lbft/lbft.go: committed batches come
-- in any order and are handed to the block writer in the order of their numbers.
-- A batch is a type of its own here, since only its presence matters. The keys are visited in the
-- order that `sort.Sort` gives; `log.Panicf` is `none`.
pub mod Sorted
pub mod Delivers
mod Tests
use l.Base.{
  ℕ, suc, ◌+◌, ◌-◌, ◌%◌, ◌^◌, ◌<◌, Bool, true, false, Option, none, some, List, [], ◌∷◌, ◌++◌, Map,
  lookup, insert, delete, ltb, leb, eqb, if◌then◌else◌, nat_eq,
}
use l.Lbft.Counters.{u64}

-- `sort.Sort` on the keys.
unfoldable pub insert_key : ℕ → List ℕ → List ℕ
insert_key k [] = k ∷ []
insert_key k (x ∷ xs) = let rest = insert_key k xs in if leb k x then k ∷ x ∷ xs else x ∷ rest

-- What the loop changes: the batches kept, the number executed, what went to the block writer,
-- and the number asked for by a FetchCommitted.
pub record State (B : Type 0) : Type 0 where
  pub committed : Map ℕ B
  pub exec : ℕ
  pub written : List (ℕ × Option B)
  pub fetch : Option ℕ

last_of : ℕ → List ℕ → ℕ
last_of x [] = x
last_of x (y ∷ ys) = last_of y ys

-- `updateExecSeqNo` with the number before the first key.
unfoldable pub start_exec : List ℕ → ℕ → ℕ
start_exec [] exec = exec
start_exec (x ∷ xs) exec = if eqb exec 0 then u64 (x + 2 ^ 64 - 1) else exec

pub first_of : List ℕ → ℕ
first_of [] = 0
first_of (x ∷ xs) = x

module _ {B : Type 0} where
  unfoldable pub sorted_keys : Map ℕ B → List ℕ
  sorted_keys [] = []
  sorted_keys ((k, b) ∷ m) = insert_key k (sorted_keys m)

  -- `first` is keys[0], `k` the option K; the subtraction wraps.
  unfoldable pub drop_old : ℕ → ℕ → ℕ → State B → State B
  drop_old k first seq_no s =
      let n = u64 (seq_no + 2 ^ 64 - k) in
      if leb first n then record s { committed = delete n s.committed } else s

  unfoldable pub write : ℕ → ℕ → State B → State B
  write k seq_no s = record s {
    committed = delete (u64 (seq_no + 2 ^ 64 - k)) s.committed;
    exec = u64 (s.exec + 1);
    written = s.written ++ ((u64 (s.exec + 1), lookup seq_no s.committed) ∷ []);
  }

  -- The variable `checkpoint` is always the number executed, plus one.
  unfoldable pub loop : ℕ → ℕ → List ℕ → State B → State B
  loop k first [] s = s
  loop k first (x ∷ xs) s =
      let older = loop k first xs (drop_old k first x s) in
      let next = loop k first xs (write k x s) in
      if ltb x (u64 (s.exec + 1))
      then older
      else if eqb x (u64 (s.exec + 1))
      then next
      else record s { fetch = some (u64 (s.exec + 1)) }

  unfoldable pub far_behind : ℕ → List ℕ → State B → Bool
  unfolding last_of
  far_behind k [] s = false
  far_behind k (x ∷ xs) s = ltb (u64 (u64 (s.exec + 1) + k)) (last_of x xs)

  unfoldable pub checkpoint : ℕ → Map ℕ B → ℕ → Option (State B)
  checkpoint k m exec =
      let keys = sorted_keys m in
      let s =
        loop k (first_of keys) keys
          (record { committed = m; exec = start_exec keys exec; written = []; fetch = none }) in
      if far_behind k keys s then none else some s
