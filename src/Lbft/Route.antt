-- ===== src/Lbft/Route.antt =====
-- `handleConsensusMsg` of core/consensus/lbft/lbft.go: what a replica does with a message, before
-- the handlers proper. A branch gives the list of calls that it makes, in order; the source's
-- `return` out of the loop is `none`. Log lines are left out.
pub mod Guards
pub mod Serving
mod Tests
use l.Base.{
  ℕ, suc, ◌+◌, Bool, true, false, not, ◌&&◌, ◌||◌, String, Option, none, some, List, [], ◌∷◌, Map,
  lookup, ltb, leb, eqb, if◌then◌else◌, string_eq, nat_eq, ◌==◌,
}
use l.Lbft.Message.{
  RequestBatch, PrePrepare, Prepare, Commit, Committed, FetchCommitted, ViewChange, NullRequest,
  Message, key, request_batch, pre_prepare, prepare, commit, committed, fetch_committed,
  view_change, null_request, unsupported,
}
use l.Lbft.Core.{Env, is_primary, is_valid}

-- What the loop reads of the replica when it takes a message.
pub record Replica : Type 0 where
  pub env : Env
  pub last_primary_id : String
  pub last_seq_no : ℕ
  pub exec_seq_no : ℕ
  pub opt_hash : String
  pub committed_batches : Map ℕ RequestBatch

pub data Action : Type 0 where
  -- `concurrentCntTo++`, and `handleRequestBatch`
  count_cross : Action
  handle_batch : RequestBatch → Action
  -- `handleLbftCoreMsg`: the instance of this name, and the message
  to_instance : String → Message → Action
  recv_committed : Committed → Action
  send : String → Message → Action
  recv_view_change : ViewChange → Action
  new_view : ViewChange → Action
  start_null_request_timer : Action

has_primary : Replica → Bool
has_primary r = not (r.env.primary_id == "")

route_pre_prepare : Replica → PrePrepare → List Action
unfolding has_primary
route_pre_prepare r pp =
    if not (has_primary r)
    then []
    else if not (pp.chain == r.env.chain) || not (pp.replica_id == pp.primary_id)
    then []
    else if not (pp.replica_id == r.env.primary_id)
    then []
    else if leb pp.seq_no r.last_seq_no
    then []
    else to_instance pp.name (pre_prepare pp) ∷ []

route_prepare : Replica → Prepare → List Action
unfolding has_primary
route_prepare r p =
    if not (has_primary r)
    then []
    else if p.chain == r.env.chain && not (p.primary_id == r.env.primary_id)
    then []
    else if p.chain == r.env.chain && leb p.seq_no r.last_seq_no
    then []
    else to_instance p.name (prepare p) ∷ []

route_committed : Replica → Committed → List Action
route_committed r c =
    if not (c.chain == r.env.chain)
    then []
    else if leb c.seq_no r.exec_seq_no
    then []
    else recv_committed c ∷ []

-- The answer to a FetchCommitted: the batch, under the name that `hash` gives it.
answer : (RequestBatch → String) → Replica → ℕ → Option RequestBatch → List Action
answer hash r seq_no none = []
answer hash r seq_no (some batch) =
    send r.env.chain (
      committed (record {
        name = key hash batch;
        chain = r.env.chain;
        replica_id = r.env.id;
        seq_no = seq_no;
        request_batch = batch;
      }))
    ∷ []

route_fetch : (RequestBatch → String) → Replica → FetchCommitted → List Action
unfolding answer
route_fetch hash r f =
    if not (f.chain == r.env.chain)
    then []
    else answer hash r f.seq_no (lookup f.seq_no r.committed_batches)

-- A replica that knows no primary yet takes the sender of a null request for it.
route_null : Replica → NullRequest → List Action
route_null r n =
    if not (n.opt_hash == r.opt_hash)
    then start_null_request_timer ∷ []
    else if r.last_primary_id == "" && n.primary_id == n.replica_id
    then new_view (record {
      replica_id = "";
      chain = "";
      priority = 0;
      primary_id = n.primary_id;
      seq_no = n.seq_no;
      height = n.height;
      opt_hash = n.opt_hash;
    })
      ∷ start_null_request_timer
      ∷ []
    else start_null_request_timer ∷ []

unfoldable pub route : (RequestBatch → String) → Replica → Message → Option (List Action)
unfolding route_pre_prepare route_prepare route_committed route_fetch route_null
route hash r (request_batch b) = some (
    if not (is_valid r.env b false)
    then []
    else if is_primary r.env
    then count_cross ∷ handle_batch b ∷ []
    else [])
route hash r (pre_prepare pp) = some (route_pre_prepare r pp)
route hash r (prepare p) = some (route_prepare r p)
route hash r (commit c) = some (to_instance c.name (commit c) ∷ [])
route hash r (committed c) = some (route_committed r c)
route hash r (fetch_committed f) = some (route_fetch hash r f)
route hash r (view_change vc) =
    if not (vc.chain == r.env.chain) then none else some (recv_view_change vc ∷ [])
route hash r (null_request n) = if not (n.chain == r.env.chain) then none else some (route_null r n)
route hash r (unsupported t) = some []

-- The loop over the messages that arrive, each with the replica as it stands then: what is done for
-- each message until the loop returns.
unfoldable pub serve : (RequestBatch → String) → List (Replica × Message) → List (List Action)
serve hash [] = []
serve hash ((r, m) ∷ ms) =
    let rest = serve hash ms in elim (route hash r m) [ none ↦ [] | some actions ↦ actions ∷ rest ]
