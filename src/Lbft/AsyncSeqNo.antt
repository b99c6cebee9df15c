-- ===== src/Lbft/AsyncSeqNo.antt =====
-- core/consensus/lbft/asyncseqno.go: instances wait for the one with the number before theirs. A
-- channel is known by its number; closing it lets through all that wait for it. Between its two
-- locks `wait` runs the function of its caller, so it is three steps here: it enters, it is let
-- through, and it leaves.
pub mod Channels
pub mod Order
mod Tests
use l.Base.{
  ◌^◌, ℕ, ◌+◌, ◌-◌, ◌<◌, Bool, true, false, not, ◌&&◌, ◌||◌, Option, none, some, List, [], ◌∷◌,
  ◌++◌, Map, lookup, insert, delete, ltb, leb, eqb, if◌then◌else◌, nat_eq,
}
use l.Lbft.Checkpoint.{sorted_keys}

-- `owner` is the number that the channel was made for; it tells two channels apart with `id`.
pub record Chan : Type 0 where
  pub owner : ℕ
  pub id : ℕ

pub record AsyncSeqNo : Type 0 where
  pub start : ℕ
  pub seq_no : Map ℕ (Option Chan)  -- nil once it is closed
  pub closed : List Chan
  pub next_id : ℕ

pub new_async_seq_no : ℕ → AsyncSeqNo
new_async_seq_no start = record { start = start; seq_no = []; closed = []; next_id = 0 }

unfoldable pub is_closed : Chan → List Chan → Bool
is_closed c [] = false
is_closed c (d ∷ ds) =
    let rest = is_closed c ds in if eqb c.owner d.owner && eqb c.id d.id then true else rest

-- A channel for a number that has no entry.
unfoldable pub ensured : ℕ → Option (Option Chan) → AsyncSeqNo → AsyncSeqNo
ensured n (some o) a = a
ensured n none a = record a {
  seq_no = insert n (some (record { owner = n; id = a.next_id })) a.seq_no;
  next_id = a.next_id + 1;
}

unfoldable pub ensure : ℕ → AsyncSeqNo → AsyncSeqNo
unfolding ensured
ensure n a = ensured n (lookup n a.seq_no) a

-- A missing entry reads as nil.
abbrev pub channel : Option (Option Chan) → Option Chan
channel none = none
channel (some c) = c

unfoldable pub shut : ℕ → Option Chan → AsyncSeqNo → AsyncSeqNo
shut n none a = a
shut n (some c) a = record a { seq_no = insert n none a.seq_no; closed = c ∷ a.closed }

unfoldable pub close_at : ℕ → AsyncSeqNo → AsyncSeqNo
unfolding shut
close_at n a = shut n (channel (lookup n a.seq_no)) a

-- `wait` up to the first unlock: the channel to wait for. A number up to `start` is a panic.
unfoldable pub enter : ℕ → AsyncSeqNo → Option (AsyncSeqNo × Option Chan)
unfolding ensure
enter n a =
    let a' = ensure (n - 1) (ensure n a) in
    if leb n a.start then none else some (a', channel (lookup (n - 1) a'.seq_no))

-- Whether the wait is over.
unfoldable pub may_run : ℕ → Option Chan → AsyncSeqNo → Bool
may_run n none a = true
may_run n (some c) a = eqb n (a.start + 1) || is_closed c a.closed

-- `seqNo-1` on a 64-bit word.
abbrev pub number_before : ℕ → ℕ
number_before n = if eqb n 0 then 2 ^ 64 - 1 else n - 1

-- `wait` behind the function.
unfoldable pub leave : ℕ → AsyncSeqNo → AsyncSeqNo
unfolding close_at
leave n a = close_at n (record a { seq_no = delete (number_before n) a.seq_no })

unfoldable pub notify : ℕ → AsyncSeqNo → AsyncSeqNo
unfolding close_at
notify n a = close_at (number_before n) a

close_up_to : ℕ → List ℕ → AsyncSeqNo → AsyncSeqNo
unfolding close_at
close_up_to n [] a = a
close_up_to n (k ∷ ks) a = let rest = close_up_to n ks (close_at k a) in if ltb n k then a else rest

pub notify_all : ℕ → AsyncSeqNo → AsyncSeqNo
unfolding close_up_to
notify_all n a = close_up_to n (sorted_keys a.seq_no) a
