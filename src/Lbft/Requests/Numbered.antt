-- ===== src/Lbft/Requests/Numbered.antt =====
-- The batches of one submission: one height, and sequence numbers without a gap.
use l.Base.{
  ℕ, suc, ◌+◌, ◌%◌, ◌^◌, ◌<◌, ◌≤◌, ◌≡◌, refl, ap, sym, ◌∙◌, subst, inl, inr, Bool, true, false, not,
  ◌||◌, String, List, [], ◌∷◌, ◌++◌, eqb, if◌then◌else◌, string_eq, arith, length, Bool-cases,
}
use mathlib.Core.List.{append-nil, append_assoc}
use l.Transaction.{Transaction}
use l.Lbft.Message.{RequestBatch}
use l.Lbft.Counters.{Counters, incr_height_num, incr_seq_num, u32}
use l.Lbft.Core.{Env, is_primary, is_valid}
use l.Lbft.Requests.{
  Requests, is_empty, batch_of, make_batches, handle_request_batch, handle_all,
  submit_request_batches,
}

-- The batches of the groups that have a transaction, each with the position of its group.
unfoldable pub batches_of : ℕ → ℕ → ℕ → List (List Transaction) → List RequestBatch
batches_of id index height [] = []
batches_of id index height (txs ∷ txss) =
    let rest = batches_of id (index + 1) height txss in
    if is_empty txs then rest else batch_of id index height txs ∷ rest

unfoldable pub some_group : List (List Transaction) → Bool
some_group [] = false
some_group (txs ∷ txss) = not (is_empty txs) || some_group txss

unfoldable pub valid_batches : Env → List RequestBatch → List RequestBatch
valid_batches env [] = []
valid_batches env (b ∷ bs) =
    let rest = valid_batches env bs in if is_valid env b true then b ∷ rest else rest

-- Numbers that follow on `n`.
unfoldable pub in_turn : ℕ → List RequestBatch → List (ℕ × RequestBatch)
in_turn n [] = []
in_turn n (b ∷ bs) = (n + 1, b) ∷ in_turn (n + 1) bs

-- Once there is a height, it is kept.
make_batches_later :
    (id index height : ℕ) (txss : List (List Transaction)) (c : Counters)
    → eqb height 0 ≡ false
    → make_batches id index txss height c ≡ (c, batches_of id index height txss)
unfolding make_batches batches_of
make_batches_later id index height [] c h = refl
make_batches_later id index height ([] ∷ txss) c h =
    make_batches_later id (index + 1) height txss c h
make_batches_later id index height ((tx ∷ txs) ∷ txss) c h =
    rw (h, make_batches_later id (index + 1) height txss c h) refl

make_batches_lem :
    (id index : ℕ) (txss : List (List Transaction)) (c : Counters)
    → eqb (u32 (c.height + 1)) 0 ≡ false
    → make_batches id index txss 0 c ≡ (
      if some_group txss then incr_height_num c else c,
      batches_of id index (u32 (c.height + 1)) txss,
    )
unfolding make_batches batches_of some_group incr_height_num
make_batches_lem id index [] c h = refl
make_batches_lem id index ([] ∷ txss) c h = make_batches_lem id (index + 1) txss c h
make_batches_lem id index ((tx ∷ txs) ∷ txss) c h =
    rw (make_batches_later id (index + 1) (u32 (c.height + 1)) txss (incr_height_num c) h) refl

length-batches_of :
    (id index height : ℕ) (txss : List (List Transaction))
    → length (batches_of id index height txss) ≤ length txss
unfolding batches_of
length-batches_of id index height [] = omega arith
length-batches_of id index height ([] ∷ txss) =
    omega (arith, length-batches_of id (index + 1) height txss)
length-batches_of id index height ((tx ∷ txs) ∷ txss) =
    omega (arith, length-batches_of id (index + 1) height txss)

with_seq_no : Counters → ℕ → Counters
with_seq_no c n = record c { seq_no = n }

module _ (hash : RequestBatch → String) where
  handle_all-step :
      (b : RequestBatch) (batches : List RequestBatch) (s : Requests) (valid : Bool)
      → is_valid s.env b true ≡ valid
      → (handle_all hash (b ∷ batches) s
          ≡ handle_all hash batches (if valid then handle_request_batch hash b s else s))
        × (valid_batches s.env (b ∷ batches)
            ≡ (if valid then b ∷ valid_batches s.env batches else valid_batches s.env batches))
  unfolding handle_all valid_batches
  handle_all-step b batches s valid e = (
    ap (λ v. handle_all hash batches (if v then handle_request_batch hash b s else s)) e,
    ap (λ v. if v then b ∷ valid_batches s.env batches else valid_batches s.env batches) e,
  )

  -- The numbers that a list of batches gets.
  Handled : List RequestBatch → Requests → Requests → Type 0
  Handled valid s s' =
      (s'.launched ≡ s.launched ++ in_turn s.counters.seq_no valid)
      × (s'.counters ≡ with_seq_no s.counters (s.counters.seq_no + length valid))

  one_more :
      (b : RequestBatch) (valid : List RequestBatch) (s s' : Requests)
      → s.counters.seq_no + 1 < 2 ^ 64
      → Handled valid (handle_request_batch hash b s) s'
      → Handled (b ∷ valid) s s'
  unfolding Handled handle_request_batch incr_seq_num with_seq_no in_turn
  one_more b valid s s' room (launched, counters) =
      let no_wrap : (s.counters.seq_no + 1) % 2 ^ 64 ≡ s.counters.seq_no + 1 =
        omega (arith, room) in
      (
        launched
            ∙ append_assoc s.launched _ _
            ∙ ap (λ n. s.launched ++ ((n, b) ∷ in_turn n valid)) no_wrap,
        counters ∙ ap (with_seq_no s.counters) (omega (arith, no_wrap)),
      )

  room_left :
      (b : RequestBatch) (s : Requests) (n : ℕ)
      → s.counters.seq_no + suc n < 2 ^ 64
      → (handle_request_batch hash b s).counters.seq_no + n < 2 ^ 64
  unfolding handle_request_batch incr_seq_num
  room_left b s n room = omega (arith, room)

  handle_all-Handled :
      (batches : List RequestBatch) (s : Requests)
      → s.counters.seq_no + length batches < 2 ^ 64
      → Handled (valid_batches s.env batches) s (handle_all hash batches s)
  unfolding handle_all valid_batches in_turn with_seq_no Handled
  handle_all-Handled [] s room =
      (sym (append-nil s.launched), ap (with_seq_no s.counters) (omega arith))
  handle_all-Handled (b ∷ batches) s room = elim (Bool-cases (is_valid s.env b true)) [
    | inr foreign ↦
        let (steps, kept) = handle_all-step b batches s false foreign in
        rw (steps, kept) (handle_all-Handled batches s (omega (arith, room)))
    | inl valid ↦
        let (steps, kept) = handle_all-step b batches s true valid in
        rw (steps, kept)
          (one_more b (valid_batches s.env batches) s
            (handle_all hash batches (handle_request_batch hash b s)) (omega (arith, room))
            (handle_all-Handled batches (handle_request_batch hash b s)
              (room_left b s (length batches) room)))
  ]

  -- While neither counter wraps around, a primary takes one new height if there is a group with a
  -- transaction, and none otherwise; every such group makes a batch of this height, of the same id and
  -- with the group's position; and the batches of the own chain get the next sequence numbers, in the
  -- order of the groups and without a gap. A replica that is not the primary does nothing.
  pub submit_request_batches-in_turn :
      (id : ℕ) (txss : List (List Transaction)) (s : Requests)
      → s.counters.height + 1 < 2 ^ 32
      → s.counters.seq_no + length txss < 2 ^ 64
      → let s' = submit_request_batches hash id txss s in
        let valid = valid_batches s.env (batches_of id 0 (s.counters.height + 1) txss) in
        (is_primary s.env ≡ true
          → (s'.launched ≡ s.launched ++ in_turn s.counters.seq_no valid)
            × (s'.counters.seq_no ≡ s.counters.seq_no + length valid)
            × (s'.counters.height
                ≡ (if some_group txss then s.counters.height + 1 else s.counters.height)))
        × (is_primary s.env ≡ false → s' ≡ s)
  unfolding submit_request_batches Handled with_seq_no incr_height_num
  submit_request_batches-in_turn id txss s low room =
      let next : u32 (s.counters.height + 1) ≡ s.counters.height + 1 = omega (arith, low) in
      let made : make_batches id 0 txss 0 s.counters ≡ (
        if some_group txss then incr_height_num s.counters else s.counters,
        batches_of id 0 (s.counters.height + 1) txss,
      ) =
        subst
          (λ h. make_batches id 0 txss 0 s.counters ≡ (
            if some_group txss then incr_height_num s.counters else s.counters,
            batches_of id 0 h txss,
          ))
          next (make_batches_lem id 0 txss s.counters (ground (arith, next))) in
      let fits = length-batches_of id 0 (s.counters.height + 1) txss in
      (
        λ leads. elim (Bool-cases (some_group txss)) [
          | inl takes ↦
              let (launched, counters) =
                handle_all-Handled (batches_of id 0 (s.counters.height + 1) txss)
                  (record s { counters = incr_height_num s.counters })
                  (omega (arith, fits, room)) in
              rw (leads, made, takes)
                (
                  launched,
                  ap (λ (c : Counters). c.seq_no) counters,
                  ap (λ (c : Counters). c.height) counters ∙ next,
                )
          | inr nothing ↦
              let (launched, counters) =
                handle_all-Handled (batches_of id 0 (s.counters.height + 1) txss) s
                  (omega (arith, fits, room)) in
              rw (leads, made, nothing)
                (
                  launched,
                  ap (λ (c : Counters). c.seq_no) counters,
                  ap (λ (c : Counters). c.height) counters,
                )
        ],
        λ follows. rw follows refl,
      )
