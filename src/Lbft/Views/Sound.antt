-- ===== src/Lbft/Views/Sound.antt =====
-- The ballot box of a view change stays in order, whatever happens.
use l.Base.{
  ℕ, ◌++◌, ◌+◌, ◌<◌, ◌≤◌, ◌≡◌, refl, sym, subst, Bool, false, not, ◌&&◌, String, Option, none, some,
  List, [], ◌∷◌, Option-cases, Map, if◌then◌else◌, string_eq, ◌==◌, arith, All, Bool-cases, inl,
  inr,
}
use l.Vote.{clear, voter_by_voter, range, iter_voter}
use l.Lbft.Message.{Committed, NullRequest, RequestBatch}
use l.Lbft.Checkpoint.{State}
use l.Lbft.Instances.{Arrivals, add_committed_request_batch}
use l.Lbft.Views.{
  Views, ticket_key, arrivals_of, drain_all, with_arrivals, count_vote, own_ticket, voted,
  send_ticket, send_view_change, recv_view_change,
}
use l.Lbft.Views.Events.{
  Event, prefer, preferred, gives_up, view_of, resend, maybe_send_view_change, null_request_handler,
  recv_null_request, collect, step,
}
use l.Lbft.Views.Order.{
  IsSound, IsReady, IsSound-IsReady, Goes, passes, passes_below, empty-IsSound, new_view-IsSound,
  count_vote-IsSound, written-IsReady, allocated-IsSound,
}

module _ (serialize : String → String → String) (now : ℕ) where
  -- A send that has counted its ticket: the ticket is broadcast.
  sent-IsSound :
      (r low : ℕ) (o : Option Views)
      → Goes low o
      → Goes low
          (elim o [ none ↦ none | some w ↦ some (record w { sent = w.sent ++ (w.heap r ∷ []) }) ])
  unfolding Goes
  sent-IsSound r low o (w, e, s, h) =
      rw e (record w { sent = w.sent ++ (w.heap r ∷ []) }, refl, s, h)

  then-IsSound :
      (low : ℕ) (o : Option Views) (f : Views → Option Views)
      → Goes low o
      → ((w : Views) → IsSound w → low ≤ w.next_ref → Goes low (f w))
      → Goes low (elim o [ none ↦ none | some w ↦ f w ])
  unfolding Goes
  then-IsSound low o f (w, e, s, h) then_f = rw e (then_f w s h)

  own_ticket-IsReady :
      (ticket : Option ℕ) (w : Views)
      → ((r : ℕ) → ticket ≡ some r → r < w.next_ref)
      → IsSound w
      → IsReady (own_ticket serialize now ticket w).1 (own_ticket serialize now ticket w).0
        × (w.next_ref ≤ (own_ticket serialize now ticket w).0.next_ref)
  unfolding own_ticket
  own_ticket-IsReady none w below s =
      (IsSound-IsReady w.next_ref _ (omega arith) (allocated-IsSound _ w s), omega arith)
  own_ticket-IsReady (some r) w below s = (written-IsReady r _ w (below r refl) s, omega arith)

  send_ticket-IsSound :
      (ticket : Option ℕ) (w : Views)
      → ((r : ℕ) → ticket ≡ some r → r < w.next_ref)
      → IsSound w
      → Goes w.next_ref (send_ticket serialize now ticket w)
  unfolding send_ticket
  send_ticket-IsSound ticket w below s =
      let (ready, grows) = own_ticket-IsReady ticket w below s in
      let (w', r) = own_ticket serialize now ticket w in
      sent-IsSound r w.next_ref (count_vote serialize now r w')
        (passes_below w.next_ref w'.next_ref _ grows (count_vote-IsSound serialize now r w' ready))

-- The batches that wait in the channel are taken without a panic of a checkpoint.
abbrev pub Drains : (RequestBatch → String) → ℕ → Views → Type 0
Drains hash k w =
    (emptied : Arrivals × List (Option (State RequestBatch))) × (drain_all hash k w.waiting
        (arrivals_of w) w.checked
      ≡ some emptied)

module _ (serialize : String → String → String) (now : ℕ) (hash : RequestBatch → String)
    (k : ℕ) where
  send_view_change-IsSound :
      (ticket : Option ℕ) (w : Views)
      → Drains hash k w
      → ((r : ℕ) → ticket ≡ some r → r < w.next_ref)
      → IsSound w
      → Goes w.next_ref (send_view_change serialize now hash k ticket w)
  unfolding send_view_change
  send_view_change-IsSound ticket w (emptied, drains) below s =
      elim (Bool-cases
        (voted serialize now (voter_by_voter (ticket_key serialize w.heap) w.id w.box))) [
          | inl done ↦ rw done (passes w.next_ref w s (omega arith))
          | inr first ↦
              rw (first, drains)
                (send_ticket-IsSound serialize now ticket (with_arrivals [] emptied w) below s)
        ]

  recv_view_change-IsSound :
      (v : ℕ) (w : Views)
      → Drains hash k w
      → v < w.next_ref
      → IsSound w
      → Goes w.next_ref (recv_view_change serialize now hash k v w)
  unfolding recv_view_change
  recv_view_change-IsSound v w drains new s =
      let counts = count_vote-IsSound serialize now v w (IsSound-IsReady v w new s) in
      let resigns : Goes w.next_ref
          (send_view_change serialize now hash k none (record w { primary_id = "" })) =
        send_view_change-IsSound none (record w { primary_id = "" }) drains (λ r e. absurd (cc))
          s in
      let vc = w.heap v in
      elim (Bool-cases (vc.chain == w.chain)) [
        | inr foreign ↦ rw foreign (passes w.next_ref w s (omega arith))
        | inl own ↦
            elim (Bool-cases (
              not (w.id == vc.replica_id)
              && vc.replica_id == w.primary_id
              && vc.primary_id == w.primary_id)) [
                | inr ordinary ↦ rw (own, ordinary) counts
                | inl again ↦
                    rw (own, again)
                      (then-IsSound serialize now w.next_ref _ (count_vote serialize now v) resigns
                        (λ w' s' grows. passes_below w.next_ref w'.next_ref _ grows (
                          count_vote-IsSound serialize now v w'
                            (IsSound-IsReady v w' (omega (arith, new, grows)) s'))))
              ]
      ]

-- The ticket that is sent again is one of the box, or none.
IsBelow : ℕ → Option ℕ → Type 0
IsBelow high o = (r : ℕ) → o ≡ some r → r < high

prefer-IsBelow :
    (w : Views) (t : ℕ) (vc : Option ℕ)
    → t < w.next_ref
    → IsBelow w.next_ref vc
    → IsBelow w.next_ref (prefer w t vc)
unfolding IsBelow
prefer-IsBelow w t none new h r e = ground (arith, h r, new, e)
prefer-IsBelow w t (some u) new h r e = ground (arith, h u refl, h r, new, e)

preferred_loop :
    (w : Views) (m : Map String ℕ) (vc : Option ℕ)
    → All (λ (e : String × ℕ). e.1 < w.next_ref) m
    → IsBelow w.next_ref vc
    → IsBelow w.next_ref (range (λ who t vc. prefer w t vc) m vc)
unfolding range
preferred_loop w [] vc b h = h
preferred_loop w ((who, t) ∷ m) vc b h =
    preferred_loop w m (prefer w t vc) b.1 (prefer-IsBelow w t vc b.0 h)

preferred-IsBelow : (w : Views) → IsSound w → IsBelow w.next_ref (preferred w)
unfolding preferred iter_voter IsBelow
preferred-IsBelow w s = preferred_loop w w.box.tickets none s.below (λ r e. absurd (cc))

null_request-IsSound :
    (now : ℕ) (np : NullRequest) (w : Views)
    → IsSound w
    → Goes w.next_ref (some (recv_null_request now np w))
unfolding recv_null_request
null_request-IsSound now np w s = elim (Bool-cases (np.chain == w.chain)) [
  | inr foreign ↦ rw foreign (passes w.next_ref w s (omega arith))
  | inl own ↦
      elim (Bool-cases
        (np.opt_hash == w.opt_hash && w.last_primary_id == "" && np.primary_id == np.replica_id)) [
          | inr known ↦ rw (own, known) (passes w.next_ref w s (omega arith))
          | inl first ↦ rw (own, first) (new_view-IsSound now (view_of np) w s.positive)
        ]
]

collect-IsSound :
    (hash : RequestBatch → String) (k : ℕ) (waiting : List Committed) (w : Views)
    (emptied : Arrivals × List (Option (State RequestBatch)))
    → drain_all hash k waiting (arrivals_of w) w.checked ≡ some emptied
    → IsSound w
    → Goes w.next_ref (collect hash k waiting w)
unfolding collect drain_all
collect-IsSound hash k [] w emptied drains s = passes w.next_ref w s (omega arith)
collect-IsSound hash k (ct ∷ cts) w emptied drains s =
    elim (Option-cases
      (add_committed_request_batch hash k ct.seq_no ct.request_batch (arrivals_of w))) [
        | inl panics ↦ let stopped : none ≡ some emptied = rw (panics, drain_all) at drains in cc
        | inr (r, done) ↦ rw (done, collect) (passes w.next_ref _ s (omega arith))
      ]

module _ (serialize : String → String → String) (now : ℕ) (hash : RequestBatch → String)
    (k : ℕ) where
  resend-IsSound :
      (w : Views)
      → gives_up k w ≡ false
      → Drains hash k w
      → IsSound w
      → Goes w.next_ref (resend serialize now hash k w)
  unfolding resend IsBelow
  resend-IsSound w goes_on drains s =
      let w' : Views = record w { voted_cnt = w.voted_cnt + 1 } in
      rw goes_on (
        send_view_change-IsSound serialize now hash k (preferred w')
          (record w' { box = clear w'.box }) drains (preferred-IsBelow w' s)
          (empty-IsSound w s.positive))

  null_timer-IsSound :
      (w : Views)
      → Drains hash k w
      → IsSound w
      → Goes w.next_ref (null_request_handler serialize now hash k w)
  unfolding null_request_handler
  null_timer-IsSound w drains s =
      let sends : Goes w.next_ref (send_view_change serialize now hash k none w) =
        send_view_change-IsSound serialize now hash k none w drains (λ r e. absurd (cc)) s in
      elim (Bool-cases (w.primary_id == "")) [
        | inl leaderless ↦ rw leaderless (passes w.next_ref w s (omega arith))
        | inr led ↦ elim (Bool-cases (w.id == w.primary_id)) [
          | inl leads ↦ rw (led, leads) (passes w.next_ref _ s (omega arith))
          | inr follows ↦ rw (led, follows) sends
        ]
      ]

  handled-IsSound :
      (e : Event) (w : Views)
      → gives_up k w ≡ false
      → Drains hash k w
      → IsSound w
      → Goes w.next_ref (step serialize now hash k e w)
  unfolding step maybe_send_view_change
  handled-IsSound (Event.null_arrives np) w goes_on drains s = null_request-IsSound now np w s
  handled-IsSound (Event.announced ct) w goes_on drains s = passes w.next_ref _ s (omega arith)
  handled-IsSound Event.collects w goes_on drains s =
      collect-IsSound hash k w.waiting w drains.0 drains.1 s
  handled-IsSound Event.null_timer w goes_on drains s = null_timer-IsSound w drains s
  handled-IsSound (Event.arrives vc) w goes_on drains s =
      passes_below w.next_ref (w.next_ref + 1) _ (omega arith) (
        recv_view_change-IsSound serialize now hash k w.next_ref _ drains (omega arith)
          (allocated-IsSound vc w s))
  handled-IsSound Event.view_change_timer w goes_on drains s =
      passes w.next_ref _ (empty-IsSound w s.positive) (omega arith)
  handled-IsSound Event.resend_timer w goes_on drains s = resend-IsSound w goes_on drains s
  handled-IsSound Event.period_timer w goes_on drains s =
      send_view_change-IsSound serialize now hash k none w drains (λ r e. absurd (cc)) s
  handled-IsSound Event.block_timer w goes_on drains s =
      let sends : Goes w.next_ref (send_view_change serialize now hash k none w) =
        send_view_change-IsSound serialize now hash k none w drains (λ r e. absurd (cc)) s in
      let goal : Bool → Type 0 = λ leaderless.
        Goes w.next_ref
          (if not leaderless then some w else send_view_change serialize now hash k none w) in
      elim (Bool-cases (w.primary_id == "")) [
        | inr led ↦ subst goal (sym led) (passes w.next_ref w s (omega arith))
        | inl leaderless ↦ subst goal (sym leaderless) sends
      ]

  -- A replica in order whose votes have not run out, and whose channel of committed batches can be
  -- emptied without a panic of a checkpoint, handles every event without a panic, and is in order again: the tickets of the ballot box for one primary have the same sequence number and
  -- height, although they are shared and written to while they are counted, all its references are
  -- below the next one, each of its counts has a ticket, and the quorum is positive.
  pub step-IsSound :
      (e : Event) (w : Views)
      → gives_up k w ≡ false
      → Drains hash k w
      → IsSound w
      → (w' : Views) × (step serialize now hash k e w ≡ some w') × IsSound w'
  unfolding Goes
  step-IsSound e w goes_on drains s =
      let (w', done, sound, grows) = handled-IsSound e w goes_on drains s in (w', done, sound)
