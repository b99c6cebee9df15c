-- ===== src/Lbft/Route/Tests.antt =====
-- A replica that knows its primary.
use l.Base.{◌≡◌, ◌≢◌, ◌<◌, ◌↔◌, ◌++◌, some, String, [], ◌∷◌, List, ==_iff, string_eq}
use l.Lbft.Message.{Message, PrePrepare, RequestBatch, ViewChange, pre_prepare, view_change}
use l.Lbft.Route.{Replica, to_instance, route, serve}
use l.Lbft.Route.Guards.{pre_prepare_reaches}
use l.Lbft.Route.Serving.{foreign_view_change_stops}

abbrev replica : Replica
replica = record {
  env = record {
    id = "b";
    chain = "0";
    quorum = 3;
    primary_id = "a";
    seq_no = 0;
    verify_seq_no = 0;
  };
  last_primary_id = "a";
  last_seq_no = 3;
  exec_seq_no = 3;
  opt_hash = "o";
  committed_batches = [];
}

abbrev proposal : PrePrepare
proposal = record {
  name = "x";
  primary_id = "a";
  chain = "0";
  replica_id = "a";
  seq_no = 4;
  requests = record { time = 1; requests = []; id = 9; index = 0; height = 2 };
}

abbrev constant_hash : RequestBatch → String
constant_hash b = "h"

abbrev foreign_vote : ViewChange
foreign_vote = record {
  replica_id = "c";
  chain = "1";
  priority = 0;
  primary_id = "c";
  seq_no = 0;
  height = 0;
  opt_hash = "o";
}

pre_prepare_reaches_example :
    (route constant_hash replica (pre_prepare proposal)
      ≡ some (to_instance "x" (pre_prepare proposal) ∷ []))
    ↔ ((replica.env.primary_id ≢ "")
        × (proposal.replica_id ≡ replica.env.primary_id)
        × (proposal.primary_id ≡ replica.env.primary_id)
        × (proposal.chain ≡ replica.env.chain)
        × (3 < 4))
pre_prepare_reaches_example = pre_prepare_reaches constant_hash replica proposal

abbrev local_messages : List (Replica × Message)
local_messages =
    (replica, pre_prepare proposal)
    ∷ (replica, view_change (record foreign_vote { chain = "0" }))
    ∷ []

chains_differ : foreign_vote.chain ≢ replica.env.chain
chains_differ e = cc ((==_iff foreign_vote.chain replica.env.chain).1 e)

foreign_view_change_stops_example :
    serve constant_hash (local_messages ++ ((replica, view_change foreign_vote) ∷ local_messages))
    ≡ serve constant_hash local_messages
foreign_view_change_stops_example =
    foreign_view_change_stops constant_hash local_messages local_messages replica foreign_vote
      chains_differ
