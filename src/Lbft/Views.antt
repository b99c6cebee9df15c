-- ===== src/Lbft/Views.antt =====
-- The view change of core/consensus/lbft/lbft.go: `sendViewChange`, `recvViewChange` and `newView`.
-- Tickets are pointers there, which the ballot box and the caller share, and `recvViewChange` writes
-- through them; so a ticket is a reference here, and `heap` holds what it points to. The key of a
-- ticket leaves out all but its chain and its primary. Timers and the clock are left out. `waiting` is
-- the channel of committed batches, which `sendViewChange` empties first, and `checked` what the
-- checkpoints of these did. What a new primary does with its first batch is `handleRequestBatch`, here
-- the flag `starts`.
pub mod Agree
pub mod Loop
pub mod Events
pub mod Order
pub mod Sound
mod Tests
use l.Base.{
  ℕ, ◌+◌, ◌<◌, Bool, true, false, not, ◌&&◌, ◌||◌, String, Option, none, some, List, [], ◌∷◌, ◌++◌,
  Map, lookup, ltb, leb, eqb, if◌then◌else◌, string_eq, ◌==◌,
}
use l.Vote.{Vote, new_vote, clear, size, voter, voter_by_voter, iter_voter, add}
use l.Lbft.Message.{ViewChange, NullRequest, Committed, RequestBatch}
use l.Lbft.Core.{Core}
use l.Lbft.Counters.{Counters, u32}
use l.Lbft.Checkpoint.{State}
use l.Lbft.Instances.{Instances, Arrivals, add_committed_request_batch}
use l.Lbft.AsyncSeqNo.{AsyncSeqNo, new_async_seq_no}

pub record Views : Type 0 where
  pub id : String
  pub chain : String
  pub opt_hash : String
  pub priority : ℕ
  pub quorum : ℕ  -- `intersectionQuorum()`
  pub primary_id : String
  pub last_primary_id : String
  pub voted_cnt : ℕ
  pub box : Vote ℕ
  pub heap : ℕ → ViewChange
  pub next_ref : ℕ
  pub counters : Counters
  pub cores : Map String Core
  pub pre_prepare_async : AsyncSeqNo
  pub commit_async : AsyncSeqNo
  pub concurrent_cnt_to : ℕ
  pub batches : Map ℕ RequestBatch  -- `committedRequestBatch`
  pub waiting : List Committed
  pub checked : List (Option (State RequestBatch))
  pub sent : List ViewChange
  pub null_sent : List NullRequest
  pub starts : Bool

abbrev pub arrivals_of : Views → Arrivals
arrivals_of w = record {
  instances = record { cores = w.cores; concurrent_cnt_to = w.concurrent_cnt_to };
  batches = w.batches;
  counters = w.counters;
}

-- The loop that empties the channel; a panic of the checkpoint ends it.
unfoldable pub drain_all :
    (RequestBatch → String)
    → ℕ
    → List Committed
    → Arrivals
    → List (Option (State RequestBatch))
    → Option (Arrivals × List (Option (State RequestBatch)))
unfolding add_committed_request_batch
drain_all hash k [] a checked = some (a, checked)
drain_all hash k (ct ∷ cts) a checked =
    elim (add_committed_request_batch hash k ct.seq_no ct.request_batch a) [
      | none ↦ none
      | some (a', done) ↦ drain_all hash k cts a' (checked ++ (done ∷ []))
    ]

abbrev pub with_arrivals :
    List Committed → Arrivals × List (Option (State RequestBatch)) → Views → Views
with_arrivals waiting (a, checked) w = record w {
  cores = a.instances.cores;
  concurrent_cnt_to = a.instances.concurrent_cnt_to;
  batches = a.batches;
  counters = a.counters;
  waiting = waiting;
  checked = checked;
}

abbrev pub write_at : ℕ → ViewChange → (ℕ → ViewChange) → ℕ → ViewChange
write_at r vc heap x = if eqb x r then vc else heap x

-- `tvc.SeqNo = vc.SeqNo`, `tvc.Height = vc.Height`.
abbrev pub with_numbers_of : ViewChange → ViewChange → ViewChange
with_numbers_of vc tvc = record tvc { seq_no = vc.seq_no; height = vc.height }

-- The body of the loop over the voters, for the ticket `t` and the new one, `v`.
unfoldable pub adjust : ℕ → ℕ → (ℕ → ViewChange) → ℕ → ViewChange
adjust v t heap =
    if not ((heap t).primary_id == (heap v).primary_id)
    then heap
    else if ltb (heap t).seq_no (heap v).seq_no
    then write_at t (with_numbers_of (heap v) (heap t)) heap
    else write_at v (with_numbers_of (heap t) (heap v)) heap

unfoldable pub adjust_all : ℕ → Vote ℕ → (ℕ → ViewChange) → ℕ → ViewChange
adjust_all v box heap = iter_voter (λ who t h. adjust v t h) box heap

-- `Serialize` of a ticket, which clears all other fields.
abbrev pub ticket_key : (String → String → String) → (ℕ → ViewChange) → ℕ → String
ticket_key serialize heap r = serialize (heap r).chain (heap r).primary_id

abbrev pub numbered : ViewChange → Bool → Counters → Counters
numbered vc leads c = record c {
  last_height = vc.height;
  height = if leads then u32 (vc.height + 1) else vc.height;
  last_seq_no = vc.seq_no;
  seq_no = vc.seq_no;
  verify_seq_no = vc.seq_no;
}

-- `newView`; `now` is the clock.
unfoldable pub new_view : ℕ → ViewChange → Views → Views
new_view now vc w =
    let leads = w.id == vc.primary_id in
    if w.primary_id == vc.primary_id then record w { box = clear w.box } else record w {
      box = clear w.box;
      primary_id = vc.primary_id;
      last_primary_id = vc.primary_id;
      priority = if leads then now else w.priority;
      counters = numbered vc leads w.counters;
      voted_cnt = 0;
      cores = [];
      pre_prepare_async = new_async_seq_no vc.seq_no;
      commit_async = new_async_seq_no vc.seq_no;
      concurrent_cnt_to = 0;
      starts = leads;
    }

-- The instances stop, and there is no primary, when the quorum is reached.
unfoldable pub stop_view : Views → Views
stop_view w =
    if eqb (size w.box) w.quorum && not (eqb (size w.box) 1)
    then record w {
      last_primary_id = if w.primary_id == "" then w.last_primary_id else w.primary_id;
      primary_id = "";
      cores = [];
    }
    else w

-- Without any vote the ticket is nil; a quorum of zero makes that a panic.
unfoldable pub elect : ℕ → Views → Option Views
unfolding stop_view new_view
elect now w =
    let (most, ticket) = voter w.box in
    if leb w.quorum most
    then elim ticket [ none ↦ none | some r ↦ some (new_view now (w.heap r) w) ]
    else some w

module _ (serialize : String → String → String) (now : ℕ) where
  -- `recvViewChange` behind its guards.
  unfoldable pub count_vote : ℕ → Views → Option Views
  unfolding adjust_all stop_view elect
  count_vote v w =
      let box = add (ticket_key serialize w.heap) (w.heap v).replica_id v w.box in
      elect now (stop_view (record w { box = box; heap = adjust_all v box w.heap }))

  -- The own ticket: a new one, or one of the box that is sent again.
  unfoldable pub own_ticket : Option ℕ → Views → Views × ℕ
  own_ticket none w =
      let vc : ViewChange = record {
        replica_id = w.id;
        chain = w.chain;
        priority = w.priority;
        primary_id = w.id;
        seq_no = w.counters.last_seq_no;
        height = w.counters.last_height;
        opt_hash = w.opt_hash;
      } in
      (record w { heap = write_at w.next_ref vc w.heap; next_ref = w.next_ref + 1 }, w.next_ref)
  own_ticket (some r) w =
      let vc = record (w.heap r) { chain = w.chain; replica_id = w.id } in
      let renewed = record vc {
        seq_no = w.counters.last_seq_no;
        height = w.counters.last_height;
        opt_hash = w.opt_hash;
      } in
      (record w { heap = write_at r (if vc.primary_id == w.id then renewed else vc) w.heap }, r)

  abbrev voted : ℕ × Option ℕ → Bool
  voted (n, t) = ltb 0 n

  -- `sendViewChange` when the channel is empty.
  unfoldable pub send_ticket : Option ℕ → Views → Option Views
  unfolding own_ticket count_vote
  send_ticket ticket w =
      let (w', r) = own_ticket ticket w in
      elim (count_vote r w') [
        | none ↦ none
        | some w'' ↦ some (record w'' { sent = w''.sent ++ (w''.heap r ∷ []) })
      ]

module _ (serialize : String → String → String) (now : ℕ) (hash : RequestBatch → String)
    (k : ℕ) where
  unfoldable pub send_view_change : Option ℕ → Views → Option Views
  unfolding send_ticket drain_all
  send_view_change ticket w =
      let drained = drain_all hash k w.waiting (arrivals_of w) w.checked in
      if voted serialize now (voter_by_voter (ticket_key serialize w.heap) w.id w.box)
      then some w
      else elim drained [
        | none ↦ none
        | some emptied ↦ send_ticket serialize now ticket (with_arrivals [] emptied w)
      ]

  -- A primary that votes for itself gives up its office, and the replica votes.
  unfoldable pub recv_view_change : ℕ → Views → Option Views
  unfolding send_view_change count_vote
  recv_view_change v w =
      let vc = w.heap v in
      let resigned : Option Views = elim (send_view_change none (record w { primary_id = "" })) [
        | none ↦ none
        | some w' ↦ count_vote serialize now v w'
      ] in
      if not (vc.chain == w.chain)
      then some w
      else if not (w.id == vc.replica_id)
          && vc.replica_id == w.primary_id
          && vc.primary_id == w.primary_id
      then resigned
      else count_vote serialize now v w
