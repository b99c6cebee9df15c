-- ===== src/Lbft/AsyncSeqNo/Order.antt =====
-- The order in which the functions of `wait` run.
use l.Base.{
  ℕ, ◌+◌, ◌-◌, ◌≡◌, ◌⊎◌, refl, ◌∙◌, subst, true, Option, none, some, List, [], ◌∷◌, ◌++◌, eqb,
  eqb_self, nat_eq, arith, All, All-map, Bool-cases, inl, inr,
}
use l.Lbft.AsyncSeqNo.{
  Chan, AsyncSeqNo, new_async_seq_no, is_closed, enter, may_run, leave, number_before, notify,
}
use l.Lbft.AsyncSeqNo.Channels.{
  holds_no, ChanIs, Good, Entered, holds_no-more, ChanIs-more, is_closed-over, Good-more,
  close_at-Good, leave-Good, enter-Entered,
}

-- The instances around one `asyncSeqNo`: those that wait with their channels, those whose function
-- runs, and the numbers whose wait is over, by the end of their function or by a notification.
pub record System : Type 0 where
  pub async : AsyncSeqNo
  pub waiting : List (ℕ × Option Chan)
  pub running : List ℕ
  pub over : List ℕ

-- One step; an instance that is notified may still be waiting.
pub data Step : System → System → Type 0 where
  enters :
      {sys : System} (n : ℕ) (a' : AsyncSeqNo) (c : Option Chan)
      → enter n sys.async ≡ some (a', c)
      → Step sys (record sys { async = a'; waiting = (n, c) ∷ sys.waiting })
  runs :
      {sys : System} (n : ℕ) (c : Option Chan) (before after : List (ℕ × Option Chan))
      → sys.waiting ≡ before ++ ((n, c) ∷ after)
      → may_run n c sys.async ≡ true
      → Step sys (record sys { waiting = before ++ after; running = n ∷ sys.running })
  leaves :
      {sys : System} (n : ℕ) (before after : List ℕ)
      → sys.running ≡ before ++ (n ∷ after)
      → Step sys
          (record sys { async = leave n sys.async; running = before ++ after; over = n ∷ sys.over })
  notifies :
      {sys : System} (n : ℕ)
      → Step sys (record sys { async = notify n sys.async; over = number_before n ∷ sys.over })

pub data Steps : System → System → Type 0 where
  stop : {sys : System} → Steps sys sys
  more : {sys sys' sys'' : System} → Step sys sys' → Steps sys' sys'' → Steps sys sys''

-- The first number, or one whose predecessor's wait is over.
abbrev pub InTurn : ℕ → List ℕ → ℕ → Type 0
InTurn start over n = (n ≡ start + 1) ⊎ (holds_no (n - 1) over ≡ true)

record Kept (start : ℕ) (sys : System) : Type 0 where
  starts : sys.async.start ≡ start
  good : Good sys.over sys.async
  waiters : All (λ (e : ℕ × Option Chan). ChanIs (e.0 - 1) sys.over e.1) sys.waiting
  in_turn : All (InTurn start sys.over) sys.running

abbrev pub around : ℕ → System
around start = record { async = new_async_seq_no start; waiting = []; running = []; over = [] }

around-Kept : (start : ℕ) → Kept start (around start)
unfolding new_async_seq_no
around-Kept start = record {
  starts = refl;
  good = record { entries = tt; shut_ones = tt };
  waiters = tt;
  in_turn = tt;
}

InTurn-more : (start m n : ℕ) (over : List ℕ) → InTurn start over n → InTurn start (m ∷ over) n
InTurn-more start m n over (inl h) = inl h
InTurn-more start m n over (inr h) = inr (holds_no-more (n - 1) m over h)

All-pick :
    {A : Type 0} (P : A → Type 0) (xs : List A) (y : A) (zs : List A)
    → All P (xs ++ (y ∷ zs))
    → P y × All P (xs ++ zs)
All-pick P [] y zs h = h
All-pick P (x ∷ xs) y zs (h, hs) = let (p, rest) = All-pick P xs y zs hs in (p, (h, rest))

may_run-InTurn :
    (start n : ℕ) (c : Option Chan) (over : List ℕ) (a : AsyncSeqNo)
    → a.start ≡ start
    → Good over a
    → ChanIs (n - 1) over c
    → may_run n c a ≡ true
    → InTurn start over n
unfolding may_run
may_run-InTurn start n none over a starts g is h = inr is
may_run-InTurn start n (some c) over a starts g is h = elim (Bool-cases (eqb n (a.start + 1))) [
  | inl first ↦ inl (ground (arith, first, starts))
  | inr later ↦
      let shut_ : is_closed c a.closed ≡ true = ground (arith, later, h) in
      inr
        (subst (λ k. holds_no k over ≡ true) is (is_closed-over over c a.closed g.shut_ones shut_))
]

Kept-more :
    (start m : ℕ) (sys : System) (a : AsyncSeqNo) (running : List ℕ)
    → Good (m ∷ sys.over) a × (a.start ≡ sys.async.start)
    → All (InTurn start sys.over) running
    → Kept start sys
    → Kept start (record sys { async = a; running = running; over = m ∷ sys.over })
Kept-more start m sys a running (g, same) turns k = record {
  starts = same ∙ k.starts;
  good = g;
  waiters = All-map (λ e. ChanIs-more (e.0 - 1) m sys.over e.1) sys.waiting k.waiters;
  in_turn = All-map (λ n. InTurn-more start m n sys.over) running turns;
}

holds_no_first : (n : ℕ) (ms : List ℕ) → holds_no n (n ∷ ms) ≡ true
unfolding holds_no
holds_no_first n ms = rw (eqb_self n) refl

Step-Kept : {start : ℕ} {sys sys' : System} → Step sys sys' → Kept start sys → Kept start sys'
unfolding Entered notify
Step-Kept {start} {sys} (enters n a' c entered) k =
    let (g, same, is) =
      subst (Entered n sys.over sys.async) entered (enter-Entered n sys.over sys.async k.good) in
    record { starts = same ∙ k.starts; good = g; waiters = (is, k.waiters); in_turn = k.in_turn }
Step-Kept {start} {sys} (runs n c before after waits may) k =
    let (is, others) =
      All-pick (λ (e : ℕ × Option Chan). ChanIs (e.0 - 1) sys.over e.1) before (n, c) after
        (subst (All (λ (e : ℕ × Option Chan). ChanIs (e.0 - 1) sys.over e.1)) waits k.waiters) in
    record {
      starts = k.starts;
      good = k.good;
      waiters = others;
      in_turn = (may_run-InTurn start n c sys.over sys.async k.starts k.good is may, k.in_turn);
    }
Step-Kept {start} {sys} (leaves n before after runs_) k =
    let (is, others) =
      All-pick (InTurn start sys.over) before n after
        (subst (All (InTurn start sys.over)) runs_ k.in_turn) in
    Kept-more start n sys (leave n sys.async) (before ++ after)
      (leave-Good n (n ∷ sys.over) sys.async (holds_no_first n sys.over)
        (Good-more n sys.over sys.async k.good))
      others k
Step-Kept {start} {sys} (notifies n) k =
    Kept-more start (number_before n) sys (notify n sys.async) sys.running
      (close_at-Good (number_before n) ((number_before n) ∷ sys.over) sys.async
        (holds_no_first (number_before n) sys.over)
        (Good-more (number_before n) sys.over sys.async k.good))
      k.in_turn k

-- From the beginning on and in any order of the steps, whoever runs has the first number behind the
-- start, or its predecessor's wait is over: its function has ended, or it was notified.
pub Steps-InTurn :
    (start : ℕ) (sys : System) → Steps (around start) sys → All (InTurn start sys.over) sys.running
Steps-InTurn start sys steps = (go steps (around-Kept start)).in_turn
  where
    go : {start : ℕ} {sys sys' : System} → Steps sys sys' → Kept start sys → Kept start sys'
    go stop k = k
    go (more step rest) k = go rest (Step-Kept step k)
