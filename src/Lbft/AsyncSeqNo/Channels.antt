-- ===== src/Lbft/AsyncSeqNo/Channels.antt =====
-- What the channels of an `asyncSeqNo` say of the numbers that are over.
use l.Base.{
  ℕ, ◌-◌, ◌≡◌, refl, ap, sym, ◌∙◌, subst, Bool, true, false, Option, none, some, List, [], ◌∷◌,
  lookup, delete, leb, eqb, eqb_iff, if◌then◌else◌, nat_eq, arith, All, All-map, lookup-insert_self,
  All-insert, All-delete, All-lookup, Option-cases, inl, inr,
}
use l.Lbft.AsyncSeqNo.{
  Chan, AsyncSeqNo, is_closed, ensure, ensured, channel, shut, close_at, enter, leave,
  number_before,
}

unfoldable pub holds_no : ℕ → List ℕ → Bool
holds_no n [] = false
holds_no n (m ∷ ms) = let rest = holds_no n ms in if eqb n m then true else rest

abbrev pub ChanIs : ℕ → List ℕ → Option Chan → Type 0
ChanIs n over none = holds_no n over ≡ true
ChanIs n over (some c) = c.owner ≡ n

pub holds_no-more : (n m : ℕ) (ms : List ℕ) → holds_no n ms ≡ true → holds_no n (m ∷ ms) ≡ true
unfolding holds_no
holds_no-more n m ms h = ground (arith, h)

pub ChanIs-more :
    (n m : ℕ) (over : List ℕ) (c : Option Chan) → ChanIs n over c → ChanIs n (m ∷ over) c
ChanIs-more n m over none h = holds_no-more n m over h
ChanIs-more n m over (some c) h = h

pub is_closed-over :
    (over : List ℕ) (c : Chan) (ds : List Chan)
    → All (λ (d : Chan). holds_no d.owner over ≡ true) ds
    → is_closed c ds ≡ true
    → holds_no c.owner over ≡ true
unfolding is_closed
is_closed-over over c [] h e = cc
is_closed-over over c (d ∷ ds) (h, hs) e =
    ground (arith, h, eqb_iff c.owner d.owner, is_closed-over over c ds hs)

-- The part of the invariant that speaks of the channels.
pub record Good (over : List ℕ) (a : AsyncSeqNo) : Type 0 where
  pub entries : All (λ (e : ℕ × Option Chan). ChanIs e.0 over e.1) a.seq_no
  pub shut_ones : All (λ (c : Chan). holds_no c.owner over ≡ true) a.closed

pub Good-more : (m : ℕ) (over : List ℕ) (a : AsyncSeqNo) → Good over a → Good (m ∷ over) a
Good-more m over a g = record {
  entries = All-map (λ e. ChanIs-more e.0 m over e.1) a.seq_no g.entries;
  shut_ones = All-map (λ c. holds_no-more c.owner m over) a.closed g.shut_ones;
}

ensured-Good :
    (n : ℕ) (o : Option (Option Chan)) (over : List ℕ) (a : AsyncSeqNo)
    → Good over a
    → Good over (ensured n o a) × ((ensured n o a).start ≡ a.start)
unfolding ensured
ensured-Good n (some o) over a g = (g, refl)
ensured-Good n none over a g = (
  record {
    entries =
        All-insert (λ (e : ℕ × Option Chan). ChanIs e.0 over e.1) n
          (some (record { owner = n; id = a.next_id })) a.seq_no g.entries refl;
    shut_ones = g.shut_ones;
  },
  refl,
)

ensure-Good :
    (n : ℕ) (over : List ℕ) (a : AsyncSeqNo)
    → Good over a
    → Good over (ensure n a) × ((ensure n a).start ≡ a.start)
unfolding ensure
ensure-Good n over a g = ensured-Good n (lookup n a.seq_no) over a g

ensured-entry :
    (n : ℕ) (o : Option (Option Chan)) (a : AsyncSeqNo)
    → lookup n a.seq_no ≡ o
    → (c : Option Chan) × (lookup n (ensured n o a).seq_no ≡ some c)
unfolding ensured
ensured-entry n (some c) a h = (c, h)
ensured-entry n none a h =
    (some (record { owner = n; id = a.next_id }), lookup-insert_self n _ a.seq_no)

ensure-entry :
    (n : ℕ) (a : AsyncSeqNo) → (c : Option Chan) × (lookup n (ensure n a).seq_no ≡ some c)
unfolding ensure
ensure-entry n a = ensured-entry n (lookup n a.seq_no) a refl

shut-Good :
    (n : ℕ) (o : Option Chan) (over : List ℕ) (a : AsyncSeqNo)
    → holds_no n over ≡ true
    → ChanIs n over o
    → Good over a
    → Good over (shut n o a) × ((shut n o a).start ≡ a.start)
unfolding shut
shut-Good n none over a h is g = (g, refl)
shut-Good n (some c) over a h is g = (
  record {
    entries = All-insert (λ (e : ℕ × Option Chan). ChanIs e.0 over e.1) n none a.seq_no g.entries h;
    shut_ones = (subst (λ k. holds_no k over ≡ true) (sym is) h, g.shut_ones);
  },
  refl,
)

pub close_at-Good :
    (n : ℕ) (over : List ℕ) (a : AsyncSeqNo)
    → holds_no n over ≡ true
    → Good over a
    → Good over (close_at n a) × ((close_at n a).start ≡ a.start)
unfolding close_at
close_at-Good n over a h g = elim (Option-cases (lookup n a.seq_no)) [
  | inl absent ↦ rw absent (shut-Good n none over a h h g)
  | inr (o, found) ↦ rw found (
      shut-Good n o over a h
        (All-lookup (λ (e : ℕ × Option Chan). ChanIs e.0 over e.1) n o a.seq_no g.entries found) g)
]

delete-Good :
    (n : ℕ) (over : List ℕ) (a : AsyncSeqNo)
    → Good over a
    → Good over (record a { seq_no = delete n a.seq_no })
delete-Good n over a g = record {
  entries = All-delete (λ (e : ℕ × Option Chan). ChanIs e.0 over e.1) n a.seq_no g.entries;
  shut_ones = g.shut_ones;
}

pub leave-Good :
    (n : ℕ) (over : List ℕ) (a : AsyncSeqNo)
    → holds_no n over ≡ true
    → Good over a
    → Good over (leave n a) × ((leave n a).start ≡ a.start)
unfolding leave
leave-Good n over a h g =
    close_at-Good n over (record a { seq_no = delete (number_before n) a.seq_no }) h
      (delete-Good (number_before n) over a g)

-- What one that enters finds: it waits for the channel of its predecessor, or has it behind it.
unfoldable pub Entered : ℕ → List ℕ → AsyncSeqNo → Option (AsyncSeqNo × Option Chan) → Type 0
Entered n over a none = Unit {0}
Entered n over a (some (a', c)) = Good over a' × (a'.start ≡ a.start) × ChanIs (n - 1) over c

Entered-if :
    (test : Bool) (n : ℕ) (over : List ℕ) (a : AsyncSeqNo) (r : AsyncSeqNo × Option Chan)
    → Entered n over a (some r)
    → Entered n over a (if test then none else some r)
unfolding Entered
Entered-if true n over a r h = tt
Entered-if false n over a r h = h

pub enter-Entered :
    (n : ℕ) (over : List ℕ) (a : AsyncSeqNo) → Good over a → Entered n over a (enter n a)
unfolding enter Entered
enter-Entered n over a g =
    let (g1, s1) = ensure-Good n over a g in
    let b = ensure n a in
    let (g2, s2) = ensure-Good (n - 1) over b g1 in
    let (c, found) = ensure-entry (n - 1) b in
    let is : ChanIs (n - 1) over c =
      All-lookup (λ (e : ℕ × Option Chan). ChanIs e.0 over e.1) (n - 1) c (ensure (n - 1) b).seq_no
        g2.entries found in
    Entered-if (leb n a.start) n over a
      (ensure (n - 1) b, channel (lookup (n - 1) (ensure (n - 1) b).seq_no))
      (g2, s2 ∙ s1, subst (ChanIs (n - 1) over) (sym (ap channel found)) is)
