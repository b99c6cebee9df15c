-- ===== src/Noops/Silent.antt =====
-- The consenter together with the pool of the validator.
use l.Base.{
  ℕ, suc, ◌≡◌, ◌≢◌, refl, ap, sym, ◌∙◌, String, Bool, some, List, [], ◌∷◌, length, All, arith,
  Bool-cases, inl, inr, ◌&&◌,
}
use l.Transaction.{Transaction}
use l.Validator.Accounts.{Validator}
use l.Validator.Grouping.{fetch_grouping_txs_in_tx_pool}
use l.Validator.Grouping.Fetches.{fetch_grouping_txs_in_tx_pool_lem}
use l.Noops.{Noops, unarmed, process_block, Event, start, stop, tick, step, run}

-- The groups of a tick are those that some state of the pool gives for the block size.
unfoldable pub FromPool : (Transaction → String) → String → ℕ → Event → Type 0
FromPool hash own block_size (tick verify time txss) =
    (vr : Validator) × ((fetch_grouping_txs_in_tx_pool hash own block_size 1 vr).1 ≡ some txss)
FromPool hash own block_size start = Unit
FromPool hash own block_size stop = Unit

-- What was sent and the two numbers.
Same : Noops → Noops → Type 0
Same s s' = (s'.committed ≡ s.committed) × (s'.seq_no ≡ s.seq_no) × (s'.height ≡ s.height)

not_two :
    (verify : List Transaction → Bool) (time : ℕ) (txss : List (List Transaction)) (s : Noops)
    → length txss ≢ 2
    → process_block verify time txss s ≡ unarmed s
unfolding process_block
not_two verify time [] s h = refl
not_two verify time (all ∷ []) s h = refl
not_two verify time (all ∷ txs ∷ []) s h = absurd (h refl)
not_two verify time (all ∷ txs ∷ more ∷ txss) s h = refl

same_length : (a b : List (List Transaction)) → some a ≡ some b → length a ≡ length b
same_length a b h = cc

module _ (hash : Transaction → String) (own : String) (block_size : ℕ) where
  length-FromPool :
      (txss : List (List Transaction)) (vr : Validator)
      → (fetch_grouping_txs_in_tx_pool hash own block_size 1 vr).1 ≡ some txss
      → length txss ≡ suc block_size
  length-FromPool txss vr given =
      let (fetched, gs, gives, size, sound, same) =
        fetch_grouping_txs_in_tx_pool_lem hash own block_size 1 vr (omega arith) in
      same_length txss (fetched ∷ gs) (sym given ∙ gives) ∙ ap suc size

  step-Same :
      (e : Event) (s : Noops) → block_size ≢ 1 → FromPool hash own block_size e → Same s (step e s)
  unfolding step FromPool Same
  step-Same start s h p = elim (Bool-cases s.running) [
    | inl running ↦ rw running (refl, refl, refl)
    | inr idle ↦ rw idle (refl, refl, refl)
  ]
  step-Same stop s h p = (refl, refl, refl)
  step-Same (tick verify time txss) s h (vr, given) = elim (Bool-cases (s.running && s.timer)) [
    | inl ticks ↦
        let three = length-FromPool txss vr given in
        rw (ticks, not_two verify time txss s (λ two. h (omega (arith, two, three))))
          (refl, refl, refl)
    | inr off ↦ rw off (refl, refl, refl)
  ]

  -- If the groups of every tick are those that a pool gives for the block size, and the block size is
  -- not 1, then no run of starts, stops and ticks makes a block or takes a number, whatever the
  -- transactions and the answers of their verification.
  pub run-silent :
      (es : List Event) (s : Noops)
      → block_size ≢ 1
      → All (FromPool hash own block_size) es
      → ((run es s).committed ≡ s.committed)
        × ((run es s).seq_no ≡ s.seq_no)
        × ((run es s).height ≡ s.height)
  unfolding run Same
  run-silent [] s h p = (refl, refl, refl)
  run-silent (e ∷ es) s h p =
      let (c, n, m) = run-silent es (step e s) h p.1 in
      let (c', n', m') = step-Same e s h p.0 in (c ∙ c', n ∙ n', m ∙ m')
