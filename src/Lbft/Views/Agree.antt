-- ===== src/Lbft/Views/Agree.antt =====
-- The numbers on the tickets for one primary.
use l.Base.{
  ℕ, ◌<◌, ◌≡◌, ◌⊎◌, refl, ap, sym, ◌∙◌, subst, true, false, String, [], ◌∷◌, Map, ltb, eqb, eqb_iff,
  eqb_self, string_eq, ◌==◌, ==_self, arith, All, All-map, Bool-cases, inl, inr,
}
use l.Vote.{range}
use l.Lbft.Message.{ViewChange}
use l.Lbft.Views.{write_at, with_numbers_of, adjust}

abbrev pub Heap : Type 0
Heap = ℕ → ViewChange

-- The numbers of a ticket: the sequence number and the height.
abbrev pub numbers : Heap → ℕ → ℕ × ℕ
numbers h r = ((h r).seq_no, (h r).height)

-- The ticket is for the primary of the new one.
abbrev pub SameVote : ℕ → Heap → ℕ → Type 0
SameVote v h t = ((h t).primary_id == (h v).primary_id) ≡ true

-- What a change of the heap leaves: the primaries, the numbers of the new ticket and of the tickets
-- for other primaries, and all numbers that do not become those of the new ticket.
pub record Moves (v : ℕ) (h h' : Heap) : Type 0 where
  pub primary : (x : ℕ) → (h' x).primary_id ≡ (h x).primary_id
  pub new : numbers h' v ≡ numbers h v
  pub apart : (x : ℕ) → ((h x).primary_id == (h v).primary_id) ≡ false → numbers h' x ≡ numbers h x
  pub others : (x : ℕ) → (numbers h' x ≡ numbers h x) ⊎ (numbers h' x ≡ numbers h v)

Moves-stay : (v : ℕ) (h : Heap) → Moves v h h
Moves-stay v h = record {
  primary = λ x. refl;
  new = refl;
  apart = λ x other. refl;
  others = λ x. inl refl;
}

SameVote-before : (v t : ℕ) (h h' : Heap) → Moves v h h' → SameVote v h' t → SameVote v h t
SameVote-before v t h h' m vote =
    subst (λ p. (p == (h v).primary_id) ≡ true) (m.primary t)
      (subst (λ p. ((h' t).primary_id == p) ≡ true) (m.primary v) vote)

Apart-after :
    (v t : ℕ) (h h' : Heap)
    → Moves v h h'
    → ((h t).primary_id == (h v).primary_id) ≡ false
    → ((h' t).primary_id == (h' v).primary_id) ≡ false
Apart-after v t h h' m other =
    subst (λ p. (p == (h' v).primary_id) ≡ false) (sym (m.primary t))
      (subst (λ p. ((h t).primary_id == p) ≡ false) (sym (m.primary v)) other)

Moves-twice : (v : ℕ) (h h' h'' : Heap) → Moves v h h' → Moves v h' h'' → Moves v h h''
Moves-twice v h h' h'' m n = record {
  primary = λ x. n.primary x ∙ m.primary x;
  new = n.new ∙ m.new;
  apart = λ x other. n.apart x (Apart-after v x h h' m other) ∙ m.apart x other;
  others = λ x. elim (n.others x) [
    | inr e ↦ inr (e ∙ m.new)
    | inl e ↦ elim (m.others x) [ inl k ↦ inl (e ∙ k) | inr k ↦ inr (e ∙ k) ]
  ];
}

-- A ticket gets the numbers of another, which are those of the new one.
renumber :
    (v r source : ℕ) (h : Heap)
    → SameVote v h r
    → numbers h source ≡ numbers h v
    → Moves v h (write_at r (with_numbers_of (h source) (h r)) h)
      × (numbers (write_at r (with_numbers_of (h source) (h r)) h) r ≡ numbers h v)
renumber v r source h vote same = (
  record {
    primary = λ x. elim (Bool-cases (eqb x r)) [
      | inl e ↦ rw e (ap (λ i. (h i).primary_id) (sym ((eqb_iff x r).0 e)))
      | inr e ↦ rw e refl
    ];
    new = elim (Bool-cases (eqb v r)) [ inl e ↦ rw e same | inr e ↦ rw e refl ];
    apart = λ x other. elim (Bool-cases (eqb x r)) [
      | inl e ↦ absurd (ground (arith, other, subst (SameVote v h) (sym ((eqb_iff x r).0 e)) vote))
      | inr e ↦ rw e refl
    ];
    others = λ x. elim (Bool-cases (eqb x r)) [ inl e ↦ inr (rw e same) | inr e ↦ inl (rw e refl) ];
  },
  rw (eqb_self r) same,
)

-- The new ticket has the common numbers of the others, or a higher one.
unfoldable pub Settled : ℕ × ℕ → ℕ → Heap → Type 0
Settled n v h = (numbers h v ≡ n) ⊎ (n.0 < (h v).seq_no)

unfoldable pub Fits : ℕ × ℕ → ℕ → Heap → ℕ → Type 0
Fits n v h t = SameVote v h t → (numbers h t ≡ n) ⊎ (numbers h t ≡ numbers h v)

Stepped : ℕ → ℕ → Heap → Heap → Type 0
Stepped v t h h' = Moves v h h' × (SameVote v h t → numbers h' t ≡ numbers h v)

Stepped-same :
    (v t : ℕ) (h : Heap)
    → numbers h t ≡ numbers h v
    → Stepped v t h (write_at v (with_numbers_of (h t) (h v)) h)
unfolding Stepped
Stepped-same v t h same =
    let (m, at_v) = renumber v v t h (==_self (h v).primary_id) same in
    (m, λ vote. elim (m.others t) [ inl e ↦ e ∙ same | inr e ↦ e ])

Stepped-of :
    (v t : ℕ) (h h' : Heap)
    → Moves v h h'
    → (SameVote v h t → numbers h' t ≡ numbers h v)
    → Stepped v t h h'
unfolding Stepped
Stepped-of v t h h' m f = (m, f)

-- Behind a settled ticket, one that fits and is not lower has the same numbers.
level :
    (n : ℕ × ℕ) (v t : ℕ) (h : Heap)
    → Settled n v h
    → (numbers h t ≡ n) ⊎ (numbers h t ≡ numbers h v)
    → ltb (h t).seq_no (h v).seq_no ≡ false
    → numbers h t ≡ numbers h v
unfolding Settled
level n v t h s (inr e) not_less = e
level n v t h (inl k) (inl e) not_less = e ∙ sym k
level n v t h (inr below) (inl e) not_less =
    let low : (h t).seq_no ≡ n.0 = ap (λ p. p.0) e in absurd (ground (arith, low, below, not_less))

adjust-Settled :
    (n : ℕ × ℕ) (v t : ℕ) (h : Heap) → Settled n v h → Fits n v h t → Stepped v t h (adjust v t h)
unfolding adjust Fits
adjust-Settled n v t h s f = elim (Bool-cases ((h t).primary_id == (h v).primary_id)) [
  | inr other ↦
      rw other (Stepped-of v t h h (Moves-stay v h) (λ vote. absurd (ground (arith, other, vote))))
  | inl vote ↦ elim (Bool-cases (ltb (h t).seq_no (h v).seq_no)) [
    | inl less ↦
        let (m, at_t) = renumber v t v h vote refl in
        rw (vote, less)
          (Stepped-of v t h (write_at t (with_numbers_of (h v) (h t)) h) m (λ same. at_t))
    | inr not_less ↦ rw (vote, not_less) (Stepped-same v t h (level n v t h s (f vote) not_less))
  ]
]

Settled-after : (n : ℕ × ℕ) (v : ℕ) (h h' : Heap) → Moves v h h' → Settled n v h → Settled n v h'
unfolding Settled
Settled-after n v h h' m (inl e) = inl (m.new ∙ e)
Settled-after n v h h' m (inr below) =
    let same : (h' v).seq_no ≡ (h v).seq_no = ap (λ p. p.0) m.new in
    inr (omega (arith, same, below))

SameVote-after : (v t : ℕ) (h h' : Heap) → Moves v h h' → SameVote v h t → SameVote v h' t
SameVote-after v t h h' m vote =
    subst (λ p. (p == (h' v).primary_id) ≡ true) (sym (m.primary t))
      (subst (λ p. ((h t).primary_id == p) ≡ true) (sym (m.primary v)) vote)

Fits-after : (n : ℕ × ℕ) (v t : ℕ) (h h' : Heap) → Moves v h h' → Fits n v h t → Fits n v h' t
unfolding Fits
Fits-after n v t h h' m f vote = elim (m.others t) [
  | inr e ↦ inr (e ∙ sym m.new)
  | inl e ↦ elim (f (SameVote-before v t h h' m vote)) [
    | inl k ↦ inl (e ∙ k)
    | inr k ↦ inr (e ∙ k ∙ sym m.new)
  ]
]

-- The loop behind a settled ticket: all tickets for its primary get its numbers.
pub level_loop :
    (n : ℕ × ℕ) (v : ℕ) (m : Map String ℕ) (h : Heap)
    → Settled n v h
    → All (λ (e : String × ℕ). Fits n v h e.1) m
    → Moves v h (range (λ who t g. adjust v t g) m h)
      × All
          (λ (e : String × ℕ).
            SameVote v h e.1 → numbers (range (λ who t g. adjust v t g) m h) e.1 ≡ numbers h v)
          m
unfolding range Stepped
level_loop n v [] h s f = (Moves-stay v h, tt)
level_loop n v ((who, t) ∷ m) h s (f, fs) =
    let (one, at_t) = adjust-Settled n v t h s f in
    let (rest, ends) =
      level_loop n v m (adjust v t h) (Settled-after n v h (adjust v t h) one s)
        (All-map (λ e. Fits-after n v e.1 h (adjust v t h) one) m fs) in
    (
      Moves-twice v h (adjust v t h) _ one rest,
      (
        λ vote. elim (rest.others t) [ inl e ↦ e ∙ at_t vote | inr e ↦ e ∙ one.new ],
        All-map (λ e end vote. end (SameVote-after v e.1 h (adjust v t h) one vote) ∙ one.new) m
            ends,
      ),
    )
