-- ===== src/Lbft/Views/Events.antt =====
-- What the loops of core/consensus/lbft/lbft.go do about the view: a ticket arrives
-- or a null request (`handleConsensusMsg`), or a timer runs out (`handleTransaction`,
-- `maybeSendViewChange`, `nullRequestHandler`). A ticket that arrives is a new object. `announced` is
-- the send of `recvCommitted` to the channel, and `collects` its receiver,
-- `handleCommittedRequestBatch`. Sleeps are left out, and so is the timer of empty blocks, which is not
-- about the view.
use l.Base.{
  ℕ, ◌+◌, Bool, not, ◌&&◌, String, Option, none, some, List, [], ◌∷◌, ◌++◌, ltb, eqb, if◌then◌else◌,
  string_eq, ◌==◌,
}
use l.Vote.{clear, iter_voter}
use l.Lbft.Message.{ViewChange, NullRequest, Committed, RequestBatch}
use l.Lbft.Instances.{add_committed_request_batch}
use l.Lbft.Views.{
  Views, write_at, arrivals_of, with_arrivals, new_view, send_view_change, recv_view_change,
}

pub data Event : Type 0 where
  arrives : ViewChange → Event
  null_arrives : NullRequest → Event
  announced : Committed → Event
  collects view_change_timer resend_timer period_timer null_timer block_timer : Event

-- The body of the loop that looks for the ticket to send again.
abbrev pub prefer : Views → ℕ → Option ℕ → Option ℕ
prefer w t vc =
    let tvc = w.heap t in
    if not (tvc.primary_id == w.last_primary_id)
      && eqb tvc.seq_no w.counters.last_seq_no
      && (tvc.opt_hash == w.opt_hash)
    then elim vc [
      | none ↦ some t
      | some r ↦ some (if ltb tvc.priority (w.heap r).priority then t else r)
    ]
    else vc

unfoldable pub preferred : Views → Option ℕ
preferred w = iter_voter (λ who t vc. prefer w t vc) w.box none

-- The replica gives up, in a panic, when it has voted more than `k` times.
abbrev pub gives_up : ℕ → Views → Bool
gives_up k w = not (w.last_primary_id == "") && ltb k (w.voted_cnt + 1)

-- A primary sends a null request.
abbrev pub null_of : Views → NullRequest
null_of w = record {
  replica_id = w.id;
  chain = w.chain;
  primary_id = w.primary_id;
  seq_no = w.counters.last_seq_no;
  height = w.counters.last_height;
  opt_hash = w.opt_hash;
}

abbrev pub view_of : NullRequest → ViewChange
view_of np = record {
  replica_id = "";
  chain = "";
  priority = 0;
  primary_id = np.primary_id;
  seq_no = np.seq_no;
  height = np.height;
  opt_hash = np.opt_hash;
}

-- A replica that knows no primary yet takes the sender of a null request for it.
unfoldable pub recv_null_request : ℕ → NullRequest → Views → Views
unfolding new_view
recv_null_request now np w =
    if not (np.chain == w.chain)
    then w
    else if np.opt_hash == w.opt_hash && w.last_primary_id == "" && np.primary_id == np.replica_id
    then new_view now (view_of np) w
    else w

-- A receive from the channel, when there is something.
unfoldable pub collect : (RequestBatch → String) → ℕ → List Committed → Views → Option Views
unfolding add_committed_request_batch
collect hash k [] w = some w
collect hash k (ct ∷ cts) w =
    elim (add_committed_request_batch hash k ct.seq_no ct.request_batch (arrivals_of w)) [
      | none ↦ none
      | some (a, done) ↦ some (with_arrivals cts (a, w.checked ++ (done ∷ [])) w)
    ]

module _ (serialize : String → String → String) (now : ℕ) (hash : RequestBatch → String)
    (k : ℕ) where
  unfoldable pub resend : Views → Option Views
  unfolding preferred send_view_change
  resend w =
      let w' = record w { voted_cnt = w.voted_cnt + 1 } in
      if gives_up k w
      then none
      else send_view_change serialize now hash k (preferred w') (record w' { box = clear w'.box })

  unfoldable pub maybe_send_view_change : Views → Option Views
  unfolding send_view_change
  maybe_send_view_change w =
      if not (w.primary_id == "") then some w else send_view_change serialize now hash k none w

  unfoldable pub null_request_handler : Views → Option Views
  unfolding send_view_change
  null_request_handler w =
      if w.primary_id == ""
      then some w
      else if w.id == w.primary_id
      then some (record w { null_sent = w.null_sent ++ (null_of w ∷ []) })
      else send_view_change serialize now hash k none w

  unfoldable pub step : Event → Views → Option Views
  unfolding resend maybe_send_view_change recv_view_change send_view_change null_request_handler
      recv_null_request collect
  step (arrives vc) w =
      recv_view_change serialize now hash k w.next_ref
        (record w { heap = write_at w.next_ref vc w.heap; next_ref = w.next_ref + 1 })
  step (null_arrives np) w = some (recv_null_request now np w)
  step (announced ct) w = some (record w { waiting = w.waiting ++ (ct ∷ []) })
  step collects w = collect hash k w.waiting w
  step null_timer w = null_request_handler w
  step view_change_timer w = some (record w { box = clear w.box })
  step resend_timer w = resend w
  step period_timer w = send_view_change serialize now hash k none w
  step block_timer w = maybe_send_view_change w
