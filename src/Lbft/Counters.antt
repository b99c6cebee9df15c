-- ===== src/Lbft/Counters.antt =====
-- The counters of a replica, from core/consensus/lbft/lbft.go: words that atomic additions change.
pub mod Laws
use l.Base.{ℕ, ◌+◌, ◌-◌, ◌%◌, ◌^◌, ◌<◌, ltb, eqb, if◌then◌else◌, ◌&&◌}

pub record Counters : Type 0 where
  pub last_height : ℕ  -- uint32
  pub height : ℕ  -- uint32
  pub exec_seq_no : ℕ  -- uint64, as all below
  pub last_seq_no : ℕ
  pub seq_no : ℕ
  pub verify_seq_no : ℕ

abbrev pub u32 : ℕ → ℕ
u32 n = n % 2 ^ 32

abbrev pub u64 : ℕ → ℕ
u64 n = n % 2 ^ 64

-- `t > 0` on a word is `t != 0`.
unfoldable pub update_last_height_num : ℕ → Counters → Counters
update_last_height_num h c =
    let t = u32 (h + 2 ^ 32 - c.last_height) in
    if ltb 0 t then record c { last_height = u32 (c.last_height + t) } else c

-- `int64(t) > 0`.
abbrev positive_int64 : ℕ → ℕ → ℕ → ℕ
positive_int64 t x y = if ltb 0 t && ltb t (2 ^ 63) then x else y

unfoldable pub update_last_seq_no : ℕ → Counters → Counters
update_last_seq_no n c =
    let t = u64 (n + 2 ^ 64 - c.last_seq_no) in
    record c { last_seq_no = positive_int64 t (u64 (c.last_seq_no + t)) c.last_seq_no }

unfoldable pub update_verify_seq_no : ℕ → Counters → Counters
update_verify_seq_no n c =
    let t = u64 (n + 2 ^ 64 - c.verify_seq_no) in
    record c { verify_seq_no = positive_int64 t (u64 (c.verify_seq_no + t)) c.verify_seq_no }

unfoldable pub update_exec_seq_no : ℕ → Counters → Counters
update_exec_seq_no n c = if eqb c.exec_seq_no 0 then record c { exec_seq_no = n } else c

unfoldable pub incr_exec_seq_num : Counters → Counters
incr_exec_seq_num c = record c { exec_seq_no = u64 (c.exec_seq_no + 1) }

unfoldable pub incr_height_num : Counters → Counters
incr_height_num c = record c { height = u32 (c.height + 1) }

unfoldable pub incr_seq_num : Counters → Counters
incr_seq_num c = record c { seq_no = u64 (c.seq_no + 1) }

pub incr_verify_seq_num : Counters → Counters
incr_verify_seq_num c = record c { verify_seq_no = u64 (c.verify_seq_no + 1) }
