-- ===== src/Lbft/Views/Loop.antt =====
-- The loop over the voters: the tickets for one primary agree on their numbers.
use l.Base.{
  ℕ, ◌<◌, ◌≤◌, ◌≡◌, ◌⊎◌, refl, ap, sym, ◌∙◌, subst, true, false, String, [], ◌∷◌, Map, ltb, eqb,
  eqb_iff, eqb_self, if◌then◌else◌, string_eq, ◌==◌, ==_self, ==_iff, arith, All, All-map, All-both,
  Bool-cases, inl, inr,
}
use native.Mathlib.Decide.{dec_lt}
use mathlib.Core.Path.{fun_ext}
use l.Vote.{Vote, range, iter_voter}
use l.Lbft.Views.{write_at, with_numbers_of, adjust, adjust_all}
use l.Lbft.Views.Agree.{Heap, numbers, Moves, SameVote, Settled, Fits, level_loop}

-- The ticket is the new one, or it has the numbers of its primary.
abbrev pub Known : (String → ℕ × ℕ) → ℕ → Heap → ℕ → Type 0
Known common v h t = (t ≡ v) ⊎ (numbers h t ≡ common (h t).primary_id)

-- What the loop has done to the tickets of a part of the box.
record Ends (v : ℕ) (m : Map String ℕ) (h h' : Heap) : Type 0 where
  pub primary : (x : ℕ) → (h' x).primary_id ≡ (h x).primary_id
  pub apart : (x : ℕ) → ((h x).primary_id == (h v).primary_id) ≡ false → numbers h' x ≡ numbers h x
  pub level : All (λ (e : String × ℕ). SameVote v h e.1 → numbers h' e.1 ≡ numbers h' v) m

-- A ticket that is set to its own numbers.
write_self : (v : ℕ) (h : Heap) → write_at v (with_numbers_of (h v) (h v)) h ≡ h
write_self v h = fun_ext (λ x. elim (Bool-cases (eqb x v)) [
  | inl e ↦ rw e (ap h (sym ((eqb_iff x v).0 e)))
  | inr e ↦ rw e refl
])

SameVote-kept :
    (h h' : Heap)
    → ((x : ℕ) → (h' x).primary_id ≡ (h x).primary_id)
    → (v t : ℕ) → SameVote v h t
    → SameVote v h' t
SameVote-kept h h' kept v t vote =
    subst (λ p. (p == (h' v).primary_id) ≡ true) (sym (kept t))
      (subst (λ p. ((h t).primary_id == p) ≡ true) (sym (kept v)) vote)

Apart_along :
    (h h' : Heap)
    → ((x : ℕ) → (h' x).primary_id ≡ (h x).primary_id)
    → (v t : ℕ) → ((h t).primary_id == (h v).primary_id) ≡ false
    → ((h' t).primary_id == (h' v).primary_id) ≡ false
Apart_along h h' kept v t other =
    subst (λ p. (p == (h' v).primary_id) ≡ false) (sym (kept t))
      (subst (λ p. ((h t).primary_id == p) ≡ false) (sym (kept v)) other)

-- The ticket `t` may still have to give its numbers to the new one.
abbrev Waits : ℕ × ℕ → ℕ → Heap → ℕ → Type 0
Waits n v h t = SameVote v h t → (t ≡ v) ⊎ (numbers h t ≡ n)

module _ (n : ℕ × ℕ) (v t : ℕ) (h : Heap) (same : numbers h t ≡ n) where
  abbrev settled : Heap
  settled = write_at v (with_numbers_of (h t) (h v)) h

  numbers-settled : numbers settled v ≡ n
  numbers-settled = rw (eqb_self v) same

  settled_primary : (x : ℕ) → (settled x).primary_id ≡ (h x).primary_id
  settled_primary x = elim (Bool-cases (eqb x v)) [
    | inl e ↦ rw e (ap (λ i. (h i).primary_id) (sym ((eqb_iff x v).0 e)))
    | inr e ↦ rw e refl
  ]

  settled_others : (x : ℕ) → (x ≡ v) ⊎ (numbers h x ≡ n) → numbers settled x ≡ n
  settled_others x (inl e) = subst (λ i. numbers settled i ≡ n) (sym e) numbers-settled
  settled_others x (inr e) = elim (Bool-cases (eqb x v)) [ inl k ↦ rw k same | inr k ↦ rw k e ]

  settled_apart :
      (x : ℕ) → ((h x).primary_id == (h v).primary_id) ≡ false → numbers settled x ≡ numbers h x
  settled_apart x other = elim (Bool-cases (eqb x v)) [
    | inl e ↦
        let self : SameVote v h x =
          subst (SameVote v h) (sym ((eqb_iff x v).0 e)) (==_self (h v).primary_id) in
        absurd (ground (arith, other, self))
    | inr e ↦ rw e refl
  ]

-- Behind a ticket that gives its numbers to the new one.
settled_rest :
    (n : ℕ × ℕ) (v t : ℕ) (m : Map String ℕ) (h : Heap) (same : numbers h t ≡ n)
    → All (λ (e : String × ℕ). Waits n v h e.1) m
    → Moves v (settled n v t h same) (range (λ who u g. adjust v u g) m (settled n v t h same))
      × All
          (λ (e : String × ℕ).
            SameVote v (settled n v t h same) e.1
            → numbers (range (λ who u g. adjust v u g) m (settled n v t h same)) e.1
              ≡ numbers (settled n v t h same) v)
          m
unfolding Settled Fits
settled_rest n v t m h same f =
    level_loop n v m (settled n v t h same) (inl (numbers-settled n v t h same)) (
      All-map
        (λ e waits vote. inl (
          settled_others n v t h same e.1 (
            waits (
              SameVote-kept (settled n v t h same) h (λ x. sym (settled_primary n v t h same x)) v
                e.1 vote))))
        m f)

-- All of them end with the numbers of the one that gives its own.
Ends-giving :
    (n : ℕ × ℕ) (v : ℕ) (who : String) (t : ℕ) (m : Map String ℕ) (h : Heap)
    (same : numbers h t ≡ n)
    → All (λ (e : String × ℕ). Waits n v h e.1) m
    → Ends v ((who, t) ∷ m) h (range (λ who u g. adjust v u g) m (settled n v t h same))
Ends-giving n v who t m h same f =
    let g = settled n v t h same in
    let (moves, ends) = settled_rest n v t m h same f in
    record {
      primary = λ x. moves.primary x ∙ settled_primary n v t h same x;
      apart = λ x other.
          moves.apart x (Apart_along h g (settled_primary n v t h same) v x other)
          ∙ settled_apart n v t h same x other;
      level = (
        λ vote. elim (moves.others t) [
          | inl e ↦
              e
              ∙ settled_others n v t h same t (inr same)
              ∙ sym (numbers-settled n v t h same)
              ∙ sym moves.new
          | inr e ↦ e ∙ sym moves.new
        ],
        All-map
            (λ e end vote.
              end (SameVote-kept h g (settled_primary n v t h same) v e.1 vote) ∙ sym moves.new)
            m ends,
      );
    }

adjust_other :
    (v t : ℕ) (h : Heap) → ((h t).primary_id == (h v).primary_id) ≡ false → adjust v t h ≡ h
unfolding adjust
adjust_other v t h other = rw other refl

adjust_self : (v : ℕ) (h : Heap) → adjust v v h ≡ h
unfolding adjust
adjust_self v h =
    let not_less : ltb (h v).seq_no (h v).seq_no ≡ false = ground arith in
    rw (==_self (h v).primary_id, not_less) (write_self v h)

adjust_low :
    (n : ℕ × ℕ) (v t : ℕ) (h : Heap) (same : numbers h t ≡ n)
    → (h v).seq_no ≤ n.0
    → SameVote v h t
    → adjust v t h ≡ settled n v t h same
unfolding adjust
adjust_low n v t h same low vote =
    let seq : (h t).seq_no ≡ n.0 = ap (λ p. p.0) same in
    let not_less : ltb (h t).seq_no (h v).seq_no ≡ false = ground (arith, seq, low) in
    rw (vote, not_less) refl

-- The loop over the tickets while the new one is not above the others.
level_low :
    (n : ℕ × ℕ) (v : ℕ) (m : Map String ℕ) (h : Heap)
    → (h v).seq_no ≤ n.0
    → All (λ (e : String × ℕ). Waits n v h e.1) m
    → Ends v m h (range (λ who t g. adjust v t g) m h)
unfolding range
level_low n v [] h low f = record { primary = λ x. refl; apart = λ x other. refl; level = tt }
level_low n v ((who, t) ∷ m) h low (f, fs) =
    let rest = level_low n v m h low fs in
    let goal : Heap → Type 0 = λ g. Ends v ((who, t) ∷ m) h (range (λ who u g. adjust v u g) m g) in
    elim (Bool-cases ((h t).primary_id == (h v).primary_id)) [
      | inr other ↦ subst goal (sym (adjust_other v t h other)) (record {
        primary = rest.primary;
        apart = rest.apart;
        level = (λ vote. absurd (ground (arith, other, vote)), rest.level);
      })
      | inl vote ↦ elim (f vote) [
        | inl e ↦
            subst goal (sym (subst (λ u. adjust v u h ≡ h) (sym e) (adjust_self v h))) (record {
              primary = rest.primary;
              apart = rest.apart;
              level = (λ vote'. ap (numbers (range (λ who u g. adjust v u g) m h)) e, rest.level);
            })
        | inr same ↦
            subst goal (sym (adjust_low n v t h same low vote)) (Ends-giving n v who t m h same fs)
      ]
    ]

level_high :
    (n : ℕ × ℕ) (v : ℕ) (m : Map String ℕ) (h : Heap)
    → n.0 < (h v).seq_no
    → All (λ (e : String × ℕ). Waits n v h e.1) m
    → Ends v m h (range (λ who t g. adjust v t g) m h)
unfolding Settled Fits
level_high n v m h above f =
    let (moves, ends) = level_loop n v m h (inr above) (
      All-map (λ e waits vote. elim (waits vote) [ inl k ↦ inr (ap (numbers h) k) | inr k ↦ inl k ])
        m f) in
    record {
      primary = moves.primary;
      apart = moves.apart;
      level = All-map (λ e end vote. end vote ∙ sym moves.new) m ends;
    }

level_any :
    (n : ℕ × ℕ) (v : ℕ) (m : Map String ℕ) (h : Heap)
    → All (λ (e : String × ℕ). Waits n v h e.1) m
    → Ends v m h (range (λ who t g. adjust v t g) m h)
level_any n v m h f = elim (dec_lt n.0 (h v).seq_no) [
  | yes above ↦ level_high n v m h above f
  | no low ↦ level_low n v m h (omega (arith, low)) f
]

-- The numbers that go with each primary, when the new ticket has some for its own.
abbrev pub renewed : (String → ℕ × ℕ) → String → ℕ × ℕ → String → ℕ × ℕ
renewed common primary new p = if p == primary then new else common p

-- After the loop the tickets of the box have the numbers that go with their primaries.
pub adjust_all_agrees :
    (common : String → ℕ × ℕ) (v : ℕ) (box : Vote ℕ) (h : Heap)
    → All (λ (e : String × ℕ). Known common v h e.1) box.tickets
    → All
        (λ (e : String × ℕ).
          numbers (adjust_all v box h) e.1
          ≡ renewed common
              (h v).primary_id
              (numbers (adjust_all v box h) v)
              (adjust_all v box h e.1).primary_id)
        box.tickets
unfolding adjust_all iter_voter
adjust_all_agrees common v box h known =
    let h' = adjust_all v box h in
    let ends = level_any (common (h v).primary_id) v box.tickets h (
      All-map
        (λ e k vote. elim k [
          | inl same ↦ inl same
          | inr at ↦ inr (at ∙ ap common ((==_iff (h e.1).primary_id (h v).primary_id).0 vote))
        ])
        box.tickets known) in
    All-map
      (λ e (k, level). elim (Bool-cases ((h e.1).primary_id == (h v).primary_id)) [
        | inl vote ↦ rw (ends.primary e.1, vote) (level vote)
        | inr other ↦
            rw (ends.primary e.1, other)
              (ends.apart e.1 other ∙ elim k [
                | inr at ↦ at
                | inl same ↦ absurd (
                    ground
                      (arith, other, subst (SameVote v h) (sym same) (==_self (h v).primary_id)))
              ])
      ])
      box.tickets (All-both _ _ box.tickets known ends.level)
