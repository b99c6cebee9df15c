-- ===== src/Lbft/Checkpoint/Delivers.antt =====
-- The block writer gets the batches in the order of their numbers, without a gap, as far as they
-- are there.
use mathlib.Core.List.{append-nil, append_assoc}
use l.Base.{
  ℕ, zero, suc, ◌+◌, ◌-◌, ◌≤◌, ◌<◌, ◌^◌, ◌≡◌, ◌≢◌, refl, sym, ap, ap₂, subst, ◌∙◌, inl, inr, Option,
  none, some, List, [], ◌∷◌, ◌++◌, arith, Map, lookup, delete, All, leb, ltb, eqb, nat_eq,
  Bool-cases, leb→le, ◌*◌, IsDistinct, false, eqb_iff, All-map, lookup-delete,
}
use l.Lbft.Counters.{u64}
use l.Lbft.Checkpoint.{
  State, loop, drop_old, write, checkpoint, sorted_keys, start_exec, first_of, far_behind, last_of,
}
use l.Lbft.Checkpoint.Sorted.{
  Ascending, sorted_keys-present, sorted_keys_complete, sorted_keys-Ascending,
}

module _ {B : Type 0} (get : ℕ → Option B) where
  -- The `n` batches after number `e`, in order.
  abbrev pub delivered : ℕ → ℕ → List (ℕ × Option B)
  delivered e zero = []
  delivered e (suc n) = (e + 1, get (e + 1)) ∷ delivered (e + 1) n

  -- The keys that are left still have their batches.
  abbrev Kept : State B → List ℕ → Type 0
  Kept s = All (λ x. lookup x s.committed ≡ get x)

  abbrev Small : ℕ → List ℕ → Type 0
  Small k = All (λ x. x + k + 1 < 2 ^ 64)

  dropped :
      (k x : ℕ) (s : State B) (xs : List ℕ)
      → All (λ y. x < y) xs
      → x + k + 1 < 2 ^ 64
      → Small k xs
      → Kept s xs
      → All (λ y. lookup y (delete (u64 (x + 2 ^ 64 - k)) s.committed) ≡ get y) xs
  dropped k x s [] a small b h = tt
  dropped k x s (y ∷ ys) a small b h = (
    rw (lookup-delete (u64 (x + 2 ^ 64 - k)) y) (ground (arith, a.0, b.0, h.0)),
    dropped k x s ys a.1 small b.1 h.1,
  )

  drop_old-Kept :
      (k first x : ℕ) (s : State B) (xs : List ℕ)
      → All (λ y. x < y) xs
      → x + k + 1 < 2 ^ 64
      → Small k xs
      → Kept s xs
      → Kept (drop_old k first x s) xs
  unfolding drop_old
  drop_old-Kept k first x s xs a small b h = elim (Bool-cases (leb first (u64 (x + 2 ^ 64 - k)))) [
    | inl e ↦ rw e (dropped k x s xs a small b h)
    | inr e ↦ rw e h
  ]

  drop_old-rest :
      (k first x : ℕ) (s : State B)
      → ((drop_old k first x s).exec ≡ s.exec) × ((drop_old k first x s).written ≡ s.written)
  unfolding drop_old
  drop_old-rest k first x s = ground arith

  -- What a run of the loop over the keys has done.
  pub record Delivered (xs : List ℕ) (s r : State B) : Type 0 where
    pub count : ℕ
    pub exec : r.exec ≡ s.exec + count
    pub written : r.written ≡ s.written ++ delivered s.exec count
    pub present : (j : ℕ) → s.exec < j → j ≤ s.exec + count → get j ≢ none
    pub stopped : All (λ x. x ≢ s.exec + count + 1) xs

  above : (e : ℕ) (x : ℕ) (xs : List ℕ) → e < x → All (λ y. x < y) xs → All (λ y. y ≢ e) xs
  above e x [] h a = tt
  above e x (y ∷ ys) h a = (omega (arith, a.0), above e x ys h a.1)

  older :
      (x : ℕ) (xs : List ℕ) (s t r : State B)
      → t.exec ≡ s.exec
      → t.written ≡ s.written
      → x < s.exec + 1
      → Delivered xs t r
      → Delivered (x ∷ xs) s r
  older x xs s t r same kept low d = record {
    count = d.count;
    exec = omega (arith, d.exec);
    written = d.written ∙ ap₂ (λ w (n : ℕ). w ++ delivered n d.count) kept same;
    present = λ j lo hi. d.present j (omega arith) (omega arith);
    stopped = (omega arith, subst (λ n. All (λ y. y ≢ n + d.count + 1) xs) same d.stopped);
  }

  next :
      (x : ℕ) (xs : List ℕ) (s t r : State B)
      → t.exec ≡ s.exec + 1
      → t.written ≡ s.written ++ ((s.exec + 1, get (s.exec + 1)) ∷ [])
      → x ≡ s.exec + 1
      → get x ≢ none
      → Delivered xs t r
      → Delivered (x ∷ xs) s r
  next x xs s t r more kept at here d = record {
    count = suc d.count;
    exec = omega (arith, d.exec);
    written =
        d.written
        ∙ ap₂ (λ w (n : ℕ). w ++ delivered n d.count) kept more
        ∙ append_assoc s.written _ _;
    present = λ j lo hi. elim (Bool-cases (eqb j x)) [
      | inl same ↦ subst (λ i. get i ≢ none) (sym ((eqb_iff j x).0 same)) here
      | inr other ↦ d.present j (ground arith) (omega arith)
    ];
    stopped = (omega arith, subst (λ n. All (λ y. y ≢ n) xs) (omega arith) d.stopped);
  }

  module _ (k first : ℕ) where
    write_exec : (x : ℕ) (s : State B) → s.exec + 1 < 2 ^ 64 → (write k x s).exec ≡ s.exec + 1
    unfolding write
    write_exec x s small = omega arith

    write_written :
        (x : ℕ) (s : State B)
        → x ≡ s.exec + 1
        → s.exec + 1 < 2 ^ 64
        → lookup x s.committed ≡ get x
        → (write k x s).written ≡ s.written ++ ((s.exec + 1, get (s.exec + 1)) ∷ [])
    unfolding write
    write_written x s at small h =
        let word : u64 (s.exec + 1) ≡ s.exec + 1 = omega arith in
        rw (word, h) (ap (λ (n : ℕ). s.written ++ ((s.exec + 1, get n) ∷ [])) at)

    pub loop-Delivered :
        (xs : List ℕ) (s : State B)
        → Ascending xs
        → Small k xs
        → Kept s xs
        → All (λ x. get x ≢ none) xs
        → s.exec + 1 < 2 ^ 64
        → Delivered xs s (loop k first xs s)
    unfolding loop
    loop-Delivered [] s a b h p e = record {
      count = 0;
      exec = omega arith;
      written = sym (append-nil s.written);
      present = λ j lo hi. absurd (omega arith);
      stopped = tt;
    }
    loop-Delivered (x ∷ xs) s a b h p e = elim (Bool-cases (ltb x (u64 (s.exec + 1)))) [
      | inl old ↦
          let (exec, written) = drop_old-rest k first x s in
          let d =
            loop-Delivered xs (drop_old k first x s) a.1 b.1
              (drop_old-Kept k first x s xs a.0 b.0 b.1 h.1) p.1 (omega (arith, exec)) in
          rw old (older x xs s _ _ exec written (ground arith) d)
      | inr new ↦ elim (Bool-cases (eqb x (u64 (s.exec + 1)))) [
        | inl here ↦
            let at : x ≡ s.exec + 1 = ground arith in
            let d =
              loop-Delivered xs (write k x s) a.1 b.1
                (unfold write in dropped k x s xs a.0 b.0 b.1 h.1) p.1
                (unfold write in omega (arith, b.0)) in
            rw (new, here)
              (next x xs s (write k x s) (loop k first xs (write k x s)) (write_exec x s e)
                (write_written x s at e h.0) at p.0 d)
        | inr gap ↦
            rw (new, gap)
              (record {
                count = 0;
                exec = omega arith;
                written = sym (append-nil s.written);
                present = λ j lo hi. absurd (omega arith);
                stopped = (ground arith, above (s.exec + 0 + 1) x xs (ground arith) a.0);
              })
      ]
    ]

-- What a checkpoint does with the batches in `m`, after number `start`: it writes out those that
-- follow one another from there, each under its number, stops in front of the first that is missing,
-- and counts what it wrote.
pub record InOrder {B : Type 0} (m : Map ℕ B) (start : ℕ) (r : State B) : Type 0 where
  pub count : ℕ
  pub exec : r.exec ≡ start + count
  pub written : r.written ≡ delivered (λ j. lookup j m) start count
  pub present : (j : ℕ) → start < j → j ≤ start + count → lookup j m ≢ none
  pub next_missing : lookup (start + count + 1) m ≡ none

module _ {B : Type 0} (k : ℕ) (m : Map ℕ B) (exec : ℕ) where
  last_of_le : (n x : ℕ) (xs : List ℕ) → x ≤ n → All (λ y. y ≤ n) xs → last_of x xs ≤ n
  unfolding last_of
  last_of_le n x [] h a = h
  last_of_le n x (y ∷ ys) h a = last_of_le n y ys a.0 a.1

  near :
      (n : ℕ) (xs : List ℕ) (s : State B)
      → All (λ y. y ≤ n) xs
      → n ≤ s.exec + 1 + k
      → s.exec + 1 + k < 2 ^ 64
      → far_behind k xs s ≡ false
  unfolding far_behind
  near n [] s a h small = refl
  near n (x ∷ xs) s a h small = ground (arith, last_of_le n x xs a.0 a.1)

  bounded :
      (start n : ℕ)
      → All (λ x. x ≤ start + k + 1) (sorted_keys m)
      → ((j : ℕ) → start < j → j ≤ start + n → lookup j m ≢ none)
      → n ≤ k + 1
  bounded start n window present = elim (Bool-cases (leb n (k + 1))) [
    | inl fits ↦ leb→le n (k + 1) fits
    | inr more ↦ absurd (
        present (start + k + 2) (omega arith) (ground arith) (
          sorted_keys_complete (start + k + 2) m
            (All-map (λ x h. not_next x h) (sorted_keys m) window)))
  ]
    where
      not_next : (x : ℕ) → x ≤ start + k + 1 → x ≢ start + k + 2
      not_next x h = omega arith

  -- With distinct numbers, all at most K + 1 above the number executed, and far enough below 2
  -- ^ 64, the checkpoint does not panic: it writes the batches that follow the executed number
  -- in order, each under its own number, up to the first that is missing, and counts what it
  -- wrote.
  pub checkpoint-InOrder :
      let start = start_exec (sorted_keys m) exec in
      IsDistinct m
      → All (λ x. x + k + 1 < 2 ^ 64) (sorted_keys m)
      → start + 2 * k + 3 < 2 ^ 64
      → All (λ x. x ≤ start + k + 1) (sorted_keys m)
      → (r : State B) × (checkpoint k m exec ≡ some r) × InOrder m start r
  unfolding checkpoint
  checkpoint-InOrder d small room window =
      let keys = sorted_keys m in
      let start = start_exec keys exec in
      let s : State B = record { committed = m; exec = start; written = []; fetch = none } in
      let r = loop k (first_of keys) keys s in
      let done =
        loop-Delivered (λ j. lookup j m) k (first_of keys) keys s (sorted_keys-Ascending m d) small
          (kept keys) (sorted_keys-present m) (omega arith) in
      let few : done.count ≤ k + 1 = bounded start done.count window done.present in
      let ahead : far_behind k keys r ≡ false =
        near (start + k + 1) keys r window (omega (arith, done.exec)) (omega (arith, done.exec)) in
      (
        r,
        rw ahead,
        record {
          count = done.count;
          exec = done.exec;
          written = done.written;
          present = done.present;
          next_missing = sorted_keys_complete (start + done.count + 1) m done.stopped;
        },
      )
    where
      kept : (xs : List ℕ) → All (λ x. lookup x m ≡ lookup x m) xs
      kept [] = tt
      kept (x ∷ xs) = (refl, kept xs)
