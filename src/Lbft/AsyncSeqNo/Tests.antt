-- ===== src/Lbft/AsyncSeqNo/Tests.antt =====
-- Two instances behind the start: the second one enters first, and runs when the first one leaves.
use l.Base.{ℕ, ◌≡◌, refl, true, some, [], ◌∷◌, All, lookup, insert, delete}
use l.Lbft.AsyncSeqNo.{Chan, AsyncSeqNo, new_async_seq_no, enter, may_run, leave, is_closed}
use l.Lbft.AsyncSeqNo.Order.{
  System, Steps, InTurn, around, Steps-InTurn, enters, runs, leaves, stop, more,
}

abbrev chan : ℕ → ℕ → Chan
chan owner id = record { owner = owner; id = id }

abbrev seventh_in : AsyncSeqNo
seventh_in = record {
  start = 5;
  seq_no = (7, some (chan 7 0)) ∷ (6, some (chan 6 1)) ∷ [];
  closed = [];
  next_id = 2;
}

abbrev both_in : AsyncSeqNo
both_in = record {
  start = 5;
  seq_no = (7, some (chan 7 0)) ∷ (6, some (chan 6 1)) ∷ (5, some (chan 5 2)) ∷ [];
  closed = [];
  next_id = 3;
}

seventh_enters : enter 7 (new_async_seq_no 5) ≡ some (seventh_in, some (chan 6 1))
unfolding enter new_async_seq_no lookup insert
seventh_enters = refl

sixth_enters : enter 6 seventh_in ≡ some (both_in, some (chan 5 2))
unfolding enter lookup insert
sixth_enters = refl

sixth_may : may_run 6 (some (chan 5 2)) both_in ≡ true
unfolding may_run
sixth_may = refl

seventh_may : may_run 7 (some (chan 6 1)) (leave 6 both_in) ≡ true
unfolding may_run leave is_closed lookup insert delete
seventh_may = refl

abbrev seventh_runs : System
seventh_runs = record { async = leave 6 both_in; waiting = []; running = 7 ∷ []; over = 6 ∷ [] }

one_after_the_other : Steps (around 5) seventh_runs
one_after_the_other = more (enters 7 seventh_in (some (chan 6 1)) seventh_enters) (
    more (enters 6 both_in (some (chan 5 2)) sixth_enters) (
      more (runs 6 (some (chan 5 2)) [] ((7, some (chan 6 1)) ∷ []) refl sixth_may)
        (more (leaves 6 [] [] refl) (more (runs 7 (some (chan 6 1)) [] [] refl seventh_may) stop))))

Steps-InTurn_example : All (InTurn 5 (6 ∷ [])) (7 ∷ [])
Steps-InTurn_example = Steps-InTurn 5 seventh_runs one_after_the_other
