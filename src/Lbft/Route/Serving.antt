-- ===== src/Lbft/Route/Serving.antt =====
-- How long the loop serves.
use l.Base.{
  ◌≡◌, ◌≢◌, refl, ap, inl, inr, String, none, List, [], ◌∷◌, ◌++◌, arith, length, All, string_eq,
  ==_iff, Option-cases,
}
use l.Lbft.Message.{
  RequestBatch, Message, ViewChange, view_change, null_request, request_batch, pre_prepare, prepare,
  commit, committed, fetch_committed, unsupported,
}
use l.Lbft.Route.{Replica, route, serve}

-- The chain that a view change or a null request names is the own one.
abbrev pub IsLocal : Replica × Message → Type 0
IsLocal (r, view_change vc) = vc.chain ≡ r.env.chain
IsLocal (r, null_request n) = n.chain ≡ r.env.chain
IsLocal (r, m) = Unit {0}

module _ (hash : RequestBatch → String) where
  local_continues : (r : Replica) (m : Message) → IsLocal (r, m) → route hash r m ≢ none
  unfolding route
  local_continues r (view_change vc) h = ground (arith, ==_iff vc.chain r.env.chain)
  local_continues r (null_request n) h = ground (arith, ==_iff n.chain r.env.chain)
  local_continues r (request_batch b) h = ground arith
  local_continues r (pre_prepare p) h = ground arith
  local_continues r (prepare p) h = ground arith
  local_continues r (commit p) h = ground arith
  local_continues r (committed p) h = ground arith
  local_continues r (fetch_committed p) h = ground arith
  local_continues r (unsupported t) h = ground arith

  -- While the view changes and null requests that arrive name the own chain, every message is
  -- served.
  pub length-serve :
      (ms : List (Replica × Message)) → All IsLocal ms → length (serve hash ms) ≡ length ms
  unfolding serve
  length-serve [] h = refl
  length-serve ((r, m) ∷ ms) h = ground (arith, local_continues r m h.0, length-serve ms h.1)

  -- A view change of another chain ends the loop: neither it nor anything that comes after it
  -- is served.
  pub foreign_view_change_stops :
      (before after : List (Replica × Message)) (r : Replica) (vc : ViewChange)
      → vc.chain ≢ r.env.chain
      → serve hash (before ++ ((r, view_change vc) ∷ after)) ≡ serve hash before
  unfolding serve route
  foreign_view_change_stops [] after r vc h = ground (arith, ==_iff vc.chain r.env.chain)
  foreign_view_change_stops ((q, m) ∷ ms) after r vc h = elim (Option-cases (route hash q m)) [
    | inl e ↦ rw (e, serve)
    | inr (actions, e) ↦
        rw (e, serve) (ap (◌∷◌ actions) (foreign_view_change_stops ms after r vc h))
  ]
