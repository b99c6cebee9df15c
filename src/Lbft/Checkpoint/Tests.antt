-- ===== src/Lbft/Checkpoint/Tests.antt =====
-- Batches 5, 4 and 7 are there after number 3: two are written, and 6 is asked for.
use l.Base.{
  ℕ, ◌≡◌, ◌≤◌, ◌<◌, ◌^◌, ◌+◌, ◌*◌, refl, String, some, [], ◌∷◌, Map, All, arith, IsDistinct, lookup,
  nat_eq,
}
use l.Lbft.Checkpoint.{State, checkpoint, sorted_keys, start_exec, insert_key}
use l.Lbft.Checkpoint.Delivers.{InOrder, checkpoint-InOrder}

abbrev three_batches : Map ℕ String
three_batches = (5, "five") ∷ (4, "four") ∷ (7, "seven") ∷ []

three-IsDistinct : IsDistinct three_batches
unfolding lookup
three-IsDistinct = (refl, (refl, (refl, tt)))

three_start : start_exec (sorted_keys three_batches) 3 ≡ 3
unfolding start_exec sorted_keys insert_key
three_start = refl

three_small : All (λ x. x + 20 + 1 < 2 ^ 64) (sorted_keys three_batches)
unfolding sorted_keys insert_key
three_small = (omega arith, (omega arith, (omega arith, tt)))

three_room : start_exec (sorted_keys three_batches) 3 + 2 * 20 + 3 < 2 ^ 64
three_room = omega (arith, three_start)

three_window :
    All (λ x. x ≤ start_exec (sorted_keys three_batches) 3 + 20 + 1) (sorted_keys three_batches)
unfolding sorted_keys insert_key start_exec
three_window = (omega arith, (omega arith, (omega arith, tt)))

checkpoint-InOrder_example :
    (r : State String) × (checkpoint 20 three_batches 3 ≡ some r)
    × InOrder three_batches (start_exec (sorted_keys three_batches) 3) r
checkpoint-InOrder_example =
    checkpoint-InOrder 20 three_batches 3 three-IsDistinct three_small three_room three_window
