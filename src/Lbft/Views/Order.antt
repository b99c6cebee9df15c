-- ===== src/Lbft/Views/Order.antt =====
-- The order of the ballot box of a view change, and the counting of a ticket that keeps it.
use l.Base.{
  ℕ, ◌+◌, ◌<◌, ◌≤◌, ◌≡◌, refl, not, ◌&&◌, String, Option, some, Map, lookup, leb, eqb, eqb_iff,
  string_eq, ◌==◌, arith, All, All-map, All-both, All-insert, Bool-cases, Option-cases, inl, inr,
}
use l.Vote.{Vote, clear, size, voter, add}
use l.Vote.Tickets.{HasTickets, voter-has_ticket, clear-HasTickets, add-HasTickets}
use l.Lbft.Message.{ViewChange}
use l.Lbft.Views.{Views, write_at, adjust_all, ticket_key, new_view, stop_view, elect, count_vote}
use l.Lbft.Views.Agree.{Heap, numbers}
use l.Lbft.Views.Loop.{Known, renewed, adjust_all_agrees}

-- Tickets for one primary have the same sequence number and height.
pub record Agreed (m : Map String ℕ) (h : Heap) : Type 0 where
  pub common : String → ℕ × ℕ
  pub held : All (λ (e : String × ℕ). numbers h e.1 ≡ common (h e.1).primary_id) m

pub record AgreedBut (v : ℕ) (m : Map String ℕ) (h : Heap) : Type 0 where
  pub common : String → ℕ × ℕ
  pub held : All (λ (e : String × ℕ). Known common v h e.1) m

pub record InOrder (box : Vote ℕ) (heap : Heap) (next_ref quorum : ℕ) : Type 0 where
  pub agreed : Agreed box.tickets heap
  pub below : All (λ (e : String × ℕ). e.1 < next_ref) box.tickets
  pub tickets : HasTickets box
  pub positive : 0 < quorum

-- Tickets for one primary agree, none is newer than the newest, each count has its ticket, and a
-- vote needs voters.
abbrev pub IsSound : Views → Type 0
IsSound w = InOrder w.box w.heap w.next_ref w.quorum

-- Sound but for the ticket `v`, which is to be counted.
pub record IsReady (v : ℕ) (w : Views) : Type 0 where
  pub agreed : AgreedBut v w.box.tickets w.heap
  pub below : All (λ (e : String × ℕ). e.1 < w.next_ref) w.box.tickets
  pub new : v < w.next_ref
  pub tickets : HasTickets w.box
  pub positive : 0 < w.quorum

-- The operation ends, in a sound state, and drops no reference.
unfoldable pub Goes : ℕ → Option Views → Type 0
Goes low o = (w : Views) × (o ≡ some w) × IsSound w × (low ≤ w.next_ref)

pub passes : (low : ℕ) (w : Views) → IsSound w → low ≤ w.next_ref → Goes low (some w)
unfolding Goes
passes low w s h = (w, refl, s, h)

pub IsSound-IsReady : (v : ℕ) (w : Views) → v < w.next_ref → IsSound w → IsReady v w
IsSound-IsReady v w h s = record {
  agreed = record {
    common = s.agreed.common;
    held = All-map (λ e k. inr k) w.box.tickets s.agreed.held;
  };
  below = s.below;
  new = h;
  tickets = s.tickets;
  positive = s.positive;
}

-- A cleared box.
pub empty-IsSound : (w : Views) → 0 < w.quorum → InOrder (clear w.box) w.heap w.next_ref w.quorum
unfolding clear
empty-IsSound w q = record {
  agreed = record { common = λ p. (0, 0); held = tt };
  below = tt;
  tickets = clear-HasTickets w.box;
  positive = q;
}

pub new_view-IsSound :
    (now : ℕ) (vc : ViewChange) (w : Views)
    → 0 < w.quorum
    → Goes w.next_ref (some (new_view now vc w))
unfolding new_view
new_view-IsSound now vc w q = elim (Bool-cases (w.primary_id == vc.primary_id)) [
  | inl same ↦ rw same (passes w.next_ref _ (empty-IsSound w q) (omega arith))
  | inr other ↦ rw other (passes w.next_ref _ (empty-IsSound w q) (omega arith))
]

stop_view-IsSound :
    (w : Views) → IsSound w → IsSound (stop_view w) × ((stop_view w).next_ref ≡ w.next_ref)
unfolding stop_view
stop_view-IsSound w s = elim (Bool-cases (eqb (size w.box) w.quorum && not (eqb (size w.box) 1))) [
  | inl stops ↦ rw stops (s, refl)
  | inr goes_on ↦ rw goes_on (s, refl)
]

elect-IsSound : (now : ℕ) (w : Views) → IsSound w → Goes w.next_ref (elect now w)
unfolding elect
elect-IsSound now w s = elim (Bool-cases (leb w.quorum (voter w.box).0)) [
  | inr few ↦ rw few (passes w.next_ref w s (omega arith))
  | inl enough ↦
      let (r, found) = voter-has_ticket w.box s.tickets (ground (arith, enough, s.positive)) in
      rw (enough, found) (new_view-IsSound now (w.heap r) w s.positive)
]

add-tickets :
    (P : String × ℕ → Type 0) (key : ℕ → String) (who : String) (v : ℕ) (box : Vote ℕ)
    → P (who, v)
    → All P box.tickets
    → All P (add key who v box).tickets
unfolding add
add-tickets P key who v box p h = elim (Option-cases (lookup who box.tickets)) [
  | inr (u, old) ↦ rw (old, add) h
  | inl new ↦ rw (new, add) (All-insert P who v box.tickets h p)
]

pub passes_below : (low high : ℕ) (o : Option Views) → low ≤ high → Goes high o → Goes low o
unfolding Goes
passes_below low high o h (w, e, s, k) = (w, e, s, omega (arith, h, k))

pub count_vote-IsSound :
    (serialize : String → String → String) (now v : ℕ) (w : Views)
    → IsReady v w
    → Goes w.next_ref (count_vote serialize now v w)
unfolding count_vote
count_vote-IsSound serialize now v w s =
    let key = ticket_key serialize w.heap in
    let who = (w.heap v).replica_id in
    let box = add key who v w.box in
    let counted : Views = record w { box = box; heap = adjust_all v box w.heap } in
    let sound : IsSound counted = record {
      agreed = record {
        common =
            renewed s.agreed.common (w.heap v).primary_id (numbers (adjust_all v box w.heap) v);
        held =
            adjust_all_agrees s.agreed.common v box w.heap
              (add-tickets _ key who v w.box (inl refl) s.agreed.held);
      };
      below = add-tickets _ key who v w.box s.new s.below;
      tickets = add-HasTickets key who v w.box s.tickets;
      positive = s.positive;
    } in
    let (stopped, kept) = stop_view-IsSound counted sound in
    passes_below w.next_ref (stop_view counted).next_ref _ (omega (arith, kept))
      (elect-IsSound now (stop_view counted) stopped)

-- A ticket that is written to while its voter is still to be counted.
pub written-IsReady :
    (r : ℕ) (vc : ViewChange) (w : Views)
    → r < w.next_ref
    → IsSound w
    → IsReady r (record w { heap = write_at r vc w.heap })
written-IsReady r vc w new s = record {
  agreed = record {
    common = s.agreed.common;
    held =
        All-map
          (λ e k. elim (Bool-cases (eqb e.1 r)) [
            | inl at ↦ inl ((eqb_iff e.1 r).0 at)
            | inr apart ↦ inr (rw apart k)
          ])
          w.box.tickets s.agreed.held;
  };
  below = s.below;
  new = new;
  tickets = s.tickets;
  positive = s.positive;
}

-- A new ticket, which no voter has.
pub allocated-IsSound :
    (vc : ViewChange) (w : Views)
    → IsSound w
    → IsSound (record w { heap = write_at w.next_ref vc w.heap; next_ref = w.next_ref + 1 })
allocated-IsSound vc w s = record {
  agreed = record {
    common = s.agreed.common;
    held =
        All-map
          (λ e (below, k). elim (Bool-cases (eqb e.1 w.next_ref)) [
            | inl at ↦ absurd (omega (arith, below, (eqb_iff e.1 w.next_ref).0 at))
            | inr apart ↦ rw apart k
          ])
          w.box.tickets (All-both _ _ w.box.tickets s.below s.agreed.held);
  };
  below = All-map (λ e below. omega (arith, below)) w.box.tickets s.below;
  tickets = s.tickets;
  positive = s.positive;
}
