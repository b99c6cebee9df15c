-- ===== src/Lbft/Blocks/Tests.antt =====
-- Two batches of different heights: the first goes out, the second is held.
use l.Base.{ℕ, ◌≡◌, ◌++◌, [], ◌∷◌, List, map}
use l.Lbft.Message.{empty_block}
use l.Lbft.Blocks.{CommittedRequestBatch, Writer, gather_all}
use l.Lbft.Blocks.Gathers.{lines, line, gather_all-lines}

abbrev empty_at : ℕ → ℕ → CommittedRequestBatch
empty_at n h = record {
  request_batch = record { time = 0; requests = []; id = empty_block; index = 0; height = h };
  seq_no = n;
}

abbrev no_block : Writer
no_block = record { block = []; height = 0; sent = [] }

abbrev two_heights : List CommittedRequestBatch
two_heights = empty_at 1 7 ∷ empty_at 2 8 ∷ []

gather_all-lines_example :
    lines (gather_all "0" two_heights no_block) ≡ lines no_block ++ map line two_heights
gather_all-lines_example = gather_all-lines "0" two_heights no_block
