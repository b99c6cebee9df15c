-- ===== src/Lbft/Committed/Tests.antt =====
-- The first announcement of a batch, with a quorum of one.
use l.Base.{false, String, []}
use l.Lbft.Message.{Committed}
use l.Lbft.Committed.{Counting, recv_committed}
use l.Lbft.Committed.Counted.{Counted, recv_committed-Counted}

abbrev announcement : Committed
announcement = record {
  name = "x";
  chain = "0";
  replica_id = "a";
  seq_no = 4;
  request_batch = record { time = 1; requests = []; id = 9; index = 0; height = 2 };
}

abbrev by_name : Committed → String
by_name ct = ct.name

abbrev nothing_counted : Counting
nothing_counted = record { votes = []; sent = [] }

recv_committed-Counted_example :
    Counted by_name 3 1 false announcement nothing_counted
      (recv_committed by_name 3 1 false announcement nothing_counted)
recv_committed-Counted_example =
    recv_committed-Counted by_name 3 1 false announcement nothing_counted tt
