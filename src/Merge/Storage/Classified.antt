-- ===== src/Merge/Storage/Classified.antt =====
-- What `ClassifiedTransaction` writes.
use l.Base.{
  ℕ, ◌≡◌, ◌≢◌, inl, inr, refl, ap, sym, ◌∙◌, subst, Bool, true, false, ◌||◌, Option, none, some,
  List, [], ◌∷◌, ◌++◌, Map, lookup, insert, lookup-insert, IsDistinct, insert-IsDistinct, eqb,
  eqb_iff, if◌then◌else◌, nat_eq, ==_iff, arith, All-append, Bool-cases,
}
use mathlib.Core.List.{append-nil, append_assoc}
use l.Transaction.{Transaction}
use l.Merge.Storage.{
  Storage, get_tx_by_time, list_or_nil, contain, persistence_transaction, persist_all, write_all,
  classified_transaction,
}
use l.Merge.Storage.Drains.{AreDistinct}

-- The transactions of one time.
unfoldable pub at_time : ℕ → List Transaction → List Transaction
at_time t [] = []
at_time t (tx ∷ txs) = let rest = at_time t txs in if eqb tx.create_time t then tx ∷ rest else rest

unfoldable pub some_at : ℕ → List Transaction → Bool
some_at t [] = false
some_at t (tx ∷ txs) = eqb tx.create_time t || some_at t txs

abbrev pub held : ℕ → Storage → List Transaction
held t s = list_or_nil (lookup t s.m)

abbrev pub written_over :
    Option (List Transaction) → Option (List Transaction) → Option (List Transaction)
written_over none old = old
written_over (some txs) old = some txs

lookup-write_all :
    (t : ℕ) (m db : Map ℕ (List Transaction))
    → IsDistinct m
    → lookup t (write_all m db) ≡ written_over (lookup t m) (lookup t db)
unfolding write_all lookup
lookup-write_all t [] db d = refl
lookup-write_all t ((u, txs) ∷ m) db (new, d) =
    lookup-write_all t m (insert u txs db) d
    ∙ ground (arith, lookup-insert u t txs db, new, ==_iff u t)

persist-held :
    (t : ℕ) (tx : Transaction) (s : Storage)
    → held t (persistence_transaction tx s) ≡ held t s ++ at_time t (tx ∷ [])
unfolding persistence_transaction at_time
persist-held t tx s = elim (Bool-cases (eqb tx.create_time t)) [
  | inl same ↦ rw (lookup-insert tx.create_time t, same, (eqb_iff tx.create_time t).0 same) refl
  | inr other ↦ rw (lookup-insert tx.create_time t, other, append-nil (held t s)) refl
]

at_time-cons :
    (t : ℕ) (tx : Transaction) (txs : List Transaction)
    → at_time t (tx ∷ []) ++ at_time t txs ≡ at_time t (tx ∷ txs)
unfolding at_time
at_time-cons t tx txs = elim (Bool-cases (eqb tx.create_time t)) [
  | inl same ↦ rw same refl
  | inr other ↦ rw other refl
]

persist_all-held :
    (t : ℕ) (txs : List Transaction) (s : Storage)
    → held t (persist_all txs s) ≡ held t s ++ at_time t txs
unfolding persist_all at_time
persist_all-held t [] s = sym (append-nil (held t s))
persist_all-held t (tx ∷ txs) s =
    persist_all-held t txs (persistence_transaction tx s)
    ∙ ap (λ front. front ++ at_time t txs) (persist-held t tx s)
    ∙ append_assoc (held t s) (at_time t (tx ∷ [])) (at_time t txs)
    ∙ ap (λ back. held t s ++ back) (at_time-cons t tx txs)

-- Which times have an entry.
abbrev has_entry : Option (List Transaction) → Bool
has_entry none = false
has_entry (some txs) = true

persist_all-entry :
    (t : ℕ) (txs : List Transaction) (s : Storage)
    → has_entry (lookup t (persist_all txs s).m) ≡ (has_entry (lookup t s.m) || some_at t txs)
unfolding persist_all some_at persistence_transaction
persist_all-entry t [] s = ground arith
persist_all-entry t (tx ∷ txs) s =
    persist_all-entry t txs (persistence_transaction tx s)
    ∙ ground (
      arith,
      lookup-insert tx.create_time t (list_or_nil (lookup tx.create_time s.m) ++ (tx ∷ [])) s.m,
    )

persist_all-IsDistinct :
    (txs : List Transaction) (s : Storage) → IsDistinct s.m → IsDistinct (persist_all txs s).m
unfolding persist_all persistence_transaction
persist_all-IsDistinct [] s d = d
persist_all-IsDistinct (tx ∷ txs) s d =
    persist_all-IsDistinct txs (persistence_transaction tx s)
      (insert-IsDistinct tx.create_time _ s.m d)

contain-append : (t u : ℕ) (ts : List ℕ) → contain t (ts ++ (u ∷ [])) ≡ (contain t ts || eqb u t)
unfolding contain
contain-append t u [] = ground arith
contain-append t u (x ∷ ts) = ground (arith, contain-append t u ts)

time_kept :
    (t u : ℕ) (ts : List ℕ) (later : Bool)
    → (contain t (if contain u ts then ts else ts ++ (u ∷ [])) || later)
      ≡ (contain t ts || (eqb u t || later))
time_kept t u ts later = elim (Bool-cases (contain u ts)) [
  | inr new ↦ rw (new, contain-append t u ts) (or_assoc (contain t ts) (eqb u t) later)
  | inl old ↦ rw old (elim (Bool-cases (eqb u t)) [
    | inr other ↦ rw other refl
    | inl same ↦ rw (same, subst (λ x. contain x ts ≡ true) ((eqb_iff u t).0 same) old) refl
  ])
]
  where
    or_assoc : (a b c : Bool) → ((a || b) || c) ≡ (a || (b || c))
    or_assoc true b c = refl
    or_assoc false b c = refl

persist_all-times :
    (t : ℕ) (txs : List Transaction) (s : Storage)
    → contain t (persist_all txs s).time_array ≡ (contain t s.time_array || some_at t txs)
unfolding persist_all some_at persistence_transaction
persist_all-times t [] s = ground arith
persist_all-times t (tx ∷ txs) s =
    persist_all-times t txs (persistence_transaction tx s)
    ∙ time_kept t tx.create_time s.time_array (some_at t txs)

append-AreDistinct :
    (ts : List ℕ) (u : ℕ) → contain u ts ≡ false → AreDistinct ts → AreDistinct (ts ++ (u ∷ []))
unfolding contain
append-AreDistinct [] u new d = (tt, tt)
append-AreDistinct (t ∷ ts) u new d = (
  All-append (λ x. x ≢ t) ts (u ∷ []) d.0 (ground (arith, new), tt),
  append-AreDistinct ts u (ground (arith, new)) d.1,
)

persist_all-AreDistinct :
    (txs : List Transaction) (s : Storage)
    → AreDistinct s.time_array
    → AreDistinct (persist_all txs s).time_array
unfolding persist_all persistence_transaction
persist_all-AreDistinct [] s d = d
persist_all-AreDistinct (tx ∷ txs) s d =
    persist_all-AreDistinct txs (persistence_transaction tx s)
      (elim (Bool-cases (contain tx.create_time s.time_array)) [
        | inl old ↦ rw old d
        | inr new ↦ rw new (append-AreDistinct s.time_array tx.create_time new d)
      ])

persist_all-stored :
    (t : ℕ) (txs : List Transaction) (s : Storage)
    → lookup t (persist_all txs s).stored_txs ≡ lookup t s.stored_txs
unfolding persist_all persistence_transaction
persist_all-stored t [] s = refl
persist_all-stored t (tx ∷ txs) s = persist_all-stored t txs (persistence_transaction tx s)

-- What is stored after a call that classifies `txs`.
pub record IsClassified (txs : List Transaction) (s s' : Storage) : Type 0 where
  pub over : (t : ℕ) → some_at t txs ≡ true → get_tx_by_time t s' ≡ held t s ++ at_time t txs
  pub again :
      (t : ℕ) (old : List Transaction)
      → lookup t s.m ≡ some old
      → get_tx_by_time t s' ≡ old ++ at_time t txs
  pub untouched :
      (t : ℕ)
      → some_at t txs ≡ false
      → lookup t s.m ≡ none
      → lookup t s'.stored_txs ≡ lookup t s.stored_txs
  pub times : (t : ℕ) → contain t s'.stored_times ≡ (contain t s.stored_times || some_at t txs)
  pub distinct_times : AreDistinct s.stored_times → AreDistinct s'.stored_times
  pub distinct_entries : IsDistinct s'.m

entry_over :
    (o old : Option (List Transaction))
    → has_entry o ≡ true
    → list_or_nil (written_over o old) ≡ list_or_nil o
entry_over none old h = cc
entry_over (some txs) old h = refl

no_entry_over : (o old : Option (List Transaction)) → has_entry o ≡ false → written_over o old ≡ old
no_entry_over none old h = refl
no_entry_over (some txs) old h = cc

-- The transactions of a time that is classified are written over what the database has for it: they
-- are those kept in memory for that time, then the new ones. The times that memory still has are
-- written again, whatever has become of them in the database; all other times keep what is stored.
-- The times that are stored get the new ones, each once.
pub classified_transaction-IsClassified :
    (txs : List Transaction) (s : Storage)
    → IsDistinct s.m
    → IsClassified txs s (classified_transaction txs s)
unfolding classified_transaction
classified_transaction-IsClassified txs s d =
    let start : Storage = record s { time_array = s.stored_times } in
    let s' = persist_all txs start in
    let d' = persist_all-IsDistinct txs start d in
    let stored : (t : ℕ)
        → lookup t (write_all s'.m s'.stored_txs)
          ≡ written_over (lookup t s'.m) (lookup t s'.stored_txs) =
      λ t. lookup-write_all t s'.m s'.stored_txs d' in
    record {
      over = λ t new.
          ap list_or_nil (stored t)
          ∙ entry_over (lookup t s'.m) _ (persist_all-entry t txs start ∙ ground (arith, new))
          ∙ persist_all-held t txs start;
      again = λ t old e.
          ap list_or_nil (stored t)
          ∙ entry_over (lookup t s'.m) _ (persist_all-entry t txs start ∙ rw e refl)
          ∙ persist_all-held t txs start
          ∙ rw e refl;
      untouched = λ t none_new e.
          stored t
          ∙ no_entry_over (lookup t s'.m) _ (persist_all-entry t txs start ∙ rw (e, none_new) refl)
          ∙ persist_all-stored t txs start;
      times = λ t. persist_all-times t txs start;
      distinct_times = persist_all-AreDistinct txs start;
      distinct_entries = d';
    }
