-- ===== src/Merge/Storage/Drains.antt =====
-- What `GetMergedTransaction` takes out.
use l.Base.{
  ℕ, ◌+◌, ◌*◌, ◌%◌, ◌^◌, ◌<◌, ◌≤◌, ◌≡◌, ◌≢◌, inl, inr, refl, ap, sym, ◌∙◌, subst, true, false, none,
  List, [], ◌∷◌, ◌++◌, lookup, delete, lookup-delete, ltb, eqb, if◌then◌else◌, nat_eq, arith, All,
  All-map, Bool-cases,
}
use mathlib.Core.List.{append-nil}
use l.Transaction.{Transaction}
use l.Lbft.Checkpoint.Sorted.{Ascending, insert_key-All, insert_key-Ascending}
use l.Merge.Storage.{
  Storage, get_tx_by_time, sort_times, last_time, check_txs_is_enough, take_before, first_time,
  get_merged_transaction, contain,
}

-- Each time stands once.
abbrev pub AreDistinct : List ℕ → Type 0
AreDistinct [] = Unit {0}
AreDistinct (t ∷ ts) = All (λ u. u ≢ t) ts × AreDistinct ts

sort_times-All : (P : ℕ → Type 0) (ts : List ℕ) → All P ts → All P (sort_times ts)
unfolding sort_times
sort_times-All P [] a = tt
sort_times-All P (t ∷ ts) a = insert_key-All P t (sort_times ts) a.0 (sort_times-All P ts a.1)

pub sort_times-Ascending : (ts : List ℕ) → AreDistinct ts → Ascending (sort_times ts)
unfolding sort_times
sort_times-Ascending [] d = tt
sort_times-Ascending (t ∷ ts) d =
    insert_key-Ascending t (sort_times ts) (sort_times-All (λ u. u ≢ t) ts d.0)
      (sort_times-Ascending ts d.1)

abbrev pub all_at : Storage → List ℕ → List Transaction
all_at s [] = []
all_at s (t ∷ ts) = get_tx_by_time t s ++ all_at s ts

-- The times are cut at the bound: the transactions of those below it are returned and gone, the
-- others stay.
pub record Drained (bound : ℕ) (ts : List ℕ) (s : Storage) (r : List Transaction × Storage)
    : Type 0 where
  pub taken : List ℕ
  pub cut : ts ≡ taken ++ r.1.stored_times
  pub old : All (λ t. t < bound) taken
  pub kept : All (λ t. bound ≤ t) r.1.stored_times
  pub returned : r.0 ≡ all_at s taken
  pub rest :
      (t : ℕ) → lookup t r.1.stored_txs ≡ (if contain t taken then none else lookup t s.stored_txs)

All-front : (P : ℕ → Type 0) (xs ys : List ℕ) → All P (xs ++ ys) → All P xs
All-front P [] ys a = tt
All-front P (x ∷ xs) ys a = (a.0, All-front P xs ys a.1)

last_time-All : (P : ℕ → Type 0) (t : ℕ) (ts : List ℕ) → All P (t ∷ ts) → P (last_time t ts)
unfolding last_time
last_time-All P t [] a = a.0
last_time-All P t (u ∷ us) a = last_time-All P u us a.1

module _ (bound : ℕ) where
  take_before-others :
      (t : ℕ) (ts : List ℕ) (s : Storage)
      → All (λ u. t < u) ts
      → all_at (record s { stored_txs = delete t s.stored_txs }) ts ≡ all_at s ts
  take_before-others t [] s above = refl
  take_before-others t (u ∷ ts) s above =
      let apart : eqb t u ≡ false = ground (arith, above.0) in
      rw (lookup-delete t u s.stored_txs, apart, take_before-others t ts s above.1) refl

  take_before-Drained :
      (ts : List ℕ) (s : Storage) → Ascending ts → Drained bound ts s (take_before bound ts s)
  unfolding take_before contain
  take_before-Drained [] s a = record {
    taken = [];
    cut = refl;
    old = tt;
    kept = tt;
    returned = refl;
    rest = λ t. refl;
  }
  take_before-Drained (t ∷ ts) s a =
      let s' : Storage = record s { stored_txs = delete t s.stored_txs } in
      let d = take_before-Drained ts s' a.1 in
      elim (Bool-cases (ltb t bound)) [
        | inl below ↦ rw below (record {
          taken = t ∷ d.taken;
          cut = ap (λ us. t ∷ us) d.cut;
          old = (ground (arith, below), d.old);
          kept = d.kept;
          returned =
              ap (λ txs. get_tx_by_time t s ++ txs)
                (d.returned
                  ∙ take_before-others t d.taken s
                      (All-front (λ u. t < u) d.taken _ (subst (All (λ u. t < u)) d.cut a.0)));
          rest = λ u. d.rest u ∙ ground (arith, lookup-delete t u s.stored_txs);
        })
        | inr stays ↦ rw stays (record {
          taken = [];
          cut = refl;
          old = tt;
          kept = (ground (arith, stays), All-map (λ u above. ground (arith, stays, above)) ts a.0);
          returned = refl;
          rest = λ u. refl;
        })
      ]

-- Where the newest time is far enough ahead, some of the times stay.
some_stay :
    (delay : ℕ) (ts : List ℕ) (s : Storage) (r : List Transaction × Storage)
    → check_txs_is_enough delay ts ≡ true
    → first_time ts + 2 * delay < 2 ^ 32
    → Drained (first_time ts + delay) ts s r
    → r.1.stored_times ≢ []
unfolding check_txs_is_enough
some_stay delay [] s r enough room d none_left = cc
some_stay delay (t ∷ ts) s r enough room d none_left =
    let all_old : All (λ u. u < t + delay) (t ∷ ts) =
      subst (All (λ u. u < t + delay))
        (sym (d.cut ∙ ap (λ rest. d.taken ++ rest) none_left ∙ append-nil d.taken)) d.old in
    absurd (ground (arith, last_time-All (λ u. u < t + delay) t ts all_old, enough, room))

-- Where the newest of the stored times, each of which stands once, is more than twice the delay
-- after the oldest, and no sum wraps around, the sorted times are cut at the oldest one plus the
-- delay: the transactions of the times below are returned, in their order, and are no longer stored,
-- the later times stay, and so do their transactions, and at least one time stays.
pub get_merged_transaction-Drained :
    (delay : ℕ) (s : Storage)
    → AreDistinct s.stored_times
    → check_txs_is_enough delay (sort_times s.stored_times) ≡ true
    → first_time (sort_times s.stored_times) + 2 * delay < 2 ^ 32
    → Drained
        (first_time (sort_times s.stored_times) + delay)
        (sort_times s.stored_times)
        s
        (get_merged_transaction delay s)
      × ((get_merged_transaction delay s).1.stored_times ≢ [])
unfolding get_merged_transaction
get_merged_transaction-Drained delay s distinct enough room =
    let ts = sort_times s.stored_times in
    let no_wrap : (first_time ts + delay) % 2 ^ 32 ≡ first_time ts + delay = omega (arith, room) in
    let d =
      take_before-Drained (first_time ts + delay) ts s
        (sort_times-Ascending s.stored_times distinct) in
    rw (enough, no_wrap) (d, some_stay delay ts s _ enough room d)
