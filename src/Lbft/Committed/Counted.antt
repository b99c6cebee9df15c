-- ===== src/Lbft/Committed/Counted.antt =====
-- An announcement goes to the writer on the word of a quorum of distinct replicas.
use l.Base.{
  ℕ, ◌≤◌, ◌<◌, ◌≡◌, refl, subst, ◌⊎◌, inl, inr, Bool, true, false, ◌||◌, String, Option, some, [],
  ◌∷◌, ◌++◌, arith, Map, lookup, insert, delete, length, length-insert_new, leb, string_eq, ◌==◌,
  All, Bool-cases, Option-cases,
}
use l.Vote.{Vote, add, voter_by_ticket, size}
use l.Vote.Tally.{IsTally, votes_for, new_vote-IsTally, add-IsTally, add_old, add_new}
use l.Vote.Winner.{voter-IsWinner}
use l.Lbft.Message.{Committed}
use l.Lbft.Committed.{Counting, find_or_new, drop_executed, recv_committed}

module _ (key : Committed → String) where
  -- A ballot box in order in which somebody voted.
  abbrev pub IsOpen : Vote Committed → Type 0
  IsOpen v = IsTally key v × (0 < size v)

  abbrev pub IsCounting : Map String (Vote Committed) → Type 0
  IsCounting = All (λ e. IsOpen e.1)

  found_open :
      (name : String) (v : Vote Committed) (m : Map String (Vote Committed))
      → IsCounting m
      → lookup name m ≡ some v
      → IsTally key v
  unfolding lookup
  found_open name v [] a h = cc
  found_open name v ((n, w) ∷ m) a h = elim (Bool-cases (n == name)) [
    | inl here ↦
        let same : some w ≡ some v = ground arith in
        subst (IsTally key) (some_injective w v same) a.0.0
    | inr there ↦ found_open name v m a.1 (ground arith)
  ]
    where
      some_injective : (w v : Vote Committed) → some w ≡ some v → w ≡ v
      some_injective w v h = cc

  insert-IsCounting :
      (name : String) (v : Vote Committed) (m : Map String (Vote Committed))
      → IsOpen v
      → IsCounting m
      → IsCounting (insert name v m)
  unfolding insert
  insert-IsCounting name v [] o a = (o, tt)
  insert-IsCounting name v ((n, w) ∷ m) o a = elim (Bool-cases (n == name)) [
    | inl here ↦ rw here (o, a.1)
    | inr there ↦ rw there (a.0, insert-IsCounting name v m o a.1)
  ]

  delete-IsCounting :
      (name : String) (m : Map String (Vote Committed)) → IsCounting m → IsCounting (delete name m)
  unfolding delete
  delete-IsCounting name [] a = tt
  delete-IsCounting name ((n, w) ∷ m) a = elim (Bool-cases (n == name)) [
    | inl here ↦ rw here (delete-IsCounting name m a.1)
    | inr there ↦ rw there (a.0, delete-IsCounting name m a.1)
  ]

  -- The clean-up meets a winner in every box.
  drop-IsCounting :
      (exec : ℕ) (m : Map String (Vote Committed))
      → IsCounting m
      → (m' : Map String (Vote Committed)) × (drop_executed exec m ≡ some m') × IsCounting m'
  unfolding drop_executed
  drop-IsCounting exec [] a = ([], refl, tt)
  drop-IsCounting exec ((n, w) ∷ m) a =
      let won = voter-IsWinner key w a.0.0 a.0.1 in
      let (m', rest, counting) = drop-IsCounting exec m a.1 in
      elim (Bool-cases (leb won.ticket.seq_no exec)) [
        | inl old ↦ (m', rw (won.returned, rest, old, drop_executed) refl, counting)
        | inr new ↦ ((n, w) ∷ m', rw (won.returned, rest, new, drop_executed) refl, (a.0, counting))
      ]

  find-IsTally :
      (name : String) (m : Map String (Vote Committed))
      → IsCounting m
      → IsTally key (find_or_new (lookup name m))
  find-IsTally name m a = elim (Option-cases (lookup name m)) [
    | inl missing ↦ rw missing (new_vote-IsTally key)
    | inr (v, found) ↦ rw found (found_open name v m a found)
  ]

  add_some : (who : String) (t : Committed) (v : Vote Committed) → 0 < size (add key who t v)
  unfolding size
  add_some who t v = elim (Option-cases (lookup who v.tickets)) [
    | inl new ↦ rw (add_new key who t v new) (omega (arith, length-insert_new who t v.tickets new))
    | inr (u, old) ↦ rw (add_old key who t u v old) (found_some who u v.tickets old)
  ]
    where
      found_some :
          (who : String) (u : Committed) (m : Map String Committed)
          → lookup who m ≡ some u
          → 0 < length m
      found_some who u [] h = unfold lookup in cc
      found_some who u (e ∷ m) h = omega arith

  -- The ballot box of the announcement's name with its vote in.
  abbrev pub box_with : Committed → Counting → Vote Committed
  box_with ct s = add key ct.replica_id ct (find_or_new (lookup ct.name s.votes))

  -- What `recvCommitted` makes of an announcement: the boxes stay in order, and it goes to the
  -- writer only above the number executed, when it was not there, and when its box has votes of at
  -- least `q` replicas for it. Otherwise it is late or there, or its box, which is kept, has fewer.
  pub record Counted (exec q : ℕ) (has : Bool) (ct : Committed) (s : Counting) (r : Option Counting)
      : Type 0 where
    pub after : Counting
    pub returned : r ≡ some after
    pub counting : IsCounting after.votes
    pub tally : IsTally key (box_with ct s)
    pub sent :
        ((after.sent ≡ s.sent)
          × ((ct.seq_no ≤ exec)
              ⊎ ((has ≡ true)
                  ⊎ ((after.votes ≡ insert ct.name (box_with ct s) s.votes)
                      × (votes_for key (key ct) (box_with ct s).tickets < q)))))
        ⊎ ((after.sent ≡ s.sent ++ (ct ∷ []))
            × (exec < ct.seq_no)
            × (has ≡ false)
            × (after.votes ≡ delete ct.name s.votes)
            × (q ≤ votes_for key (key ct) (box_with ct s).tickets))

  -- With every ballot box in order and voted in, an announcement does not make the method
  -- panic and leaves the boxes so. It goes to the writer only if its number is above the
  -- executed one, its batch was not there, and at least `q` distinct replicas
  -- voted for it in the box of its name, which is closed then. If it does not go, its number is
  -- executed, or its batch there, or its box is kept with fewer than `q` votes for it.
  pub recv_committed-Counted :
      (exec q : ℕ) (has : Bool) (ct : Committed) (s : Counting)
      → IsCounting s.votes
      → Counted exec q has ct s (recv_committed key exec q has ct s)
  unfolding recv_committed
  recv_committed-Counted exec q has ct s a =
      let v = add key ct.replica_id ct (find_or_new (lookup ct.name s.votes)) in
      let tally : IsTally key v = add-IsTally key _ _ _ (find-IsTally ct.name s.votes a) in
      elim (Bool-cases (leb ct.seq_no exec || has)) [
        | inl late ↦
            let (m, dropped, counting) =
              drop-IsCounting exec _ (delete-IsCounting ct.name s.votes a) in
            record {
              after = record s { votes = m };
              returned = rw (late, dropped) refl;
              counting = counting;
              tally = tally;
              sent = inl (refl, passed_over ct.seq_no late);
            }
        | inr fresh ↦ elim (Bool-cases (leb q (voter_by_ticket key ct v))) [
          | inl enough ↦ record {
            after = record { votes = delete ct.name s.votes; sent = s.sent ++ (ct ∷ []) };
            returned = rw (fresh, enough) refl;
            counting = delete-IsCounting ct.name s.votes a;
            tally = tally;
            sent = inr (refl, ground arith, ground arith, refl, reached v tally enough);
          }
          | inr few ↦ record {
            after = record s { votes = insert ct.name v s.votes };
            returned = rw (fresh, few) refl;
            counting = insert-IsCounting ct.name v s.votes (tally, add_some _ _ _) a;
            tally = tally;
            sent = inl (refl, inr (inr (refl, missed v tally few)));
          }
        ]
      ]
    where
      passed_over :
          {B : Type 0} → (n : ℕ) → (leb n exec || has) ≡ true → (n ≤ exec) ⊎ ((has ≡ true) ⊎ B)
      passed_over n late = elim (Bool-cases has) [
        | inl there ↦ inr (inl there)
        | inr new ↦ inl (ground (arith, new))
      ]

      reached :
          (v : Vote Committed)
          → IsTally key v
          → leb q (voter_by_ticket key ct v) ≡ true
          → q ≤ votes_for key (key ct) v.tickets
      reached v i h = unfold voter_by_ticket in ground (arith, i.counted (key ct))

      missed :
          (v : Vote Committed)
          → IsTally key v
          → leb q (voter_by_ticket key ct v) ≡ false
          → votes_for key (key ct) v.tickets < q
      missed v i h = unfold voter_by_ticket in ground (arith, i.counted (key ct))
