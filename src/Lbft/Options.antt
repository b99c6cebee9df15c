-- ===== src/Lbft/Options.antt =====
-- core/consensus/lbft/options.go, and the corrections that `NewLbft` of lbft.go makes. Durations are
-- nanoseconds; the counts are positive ints. `log.Panicf` is `none`.
pub mod Bounds
mod Tests
use l.Base.{
  ℕ, ◌+◌, ◌-◌, ◌*◌, ◌/◌, ◌<◌, Bool, String, Option, none, some, ltb, leb, if◌then◌else◌, ◌&&◌,
}

pub record Options : Type 0 where
  pub chain : String
  pub id : String
  pub n : ℕ
  pub q : ℕ
  pub k : ℕ
  pub block_size : ℕ
  pub block_timeout : ℕ
  pub block_interval : ℕ
  pub view_change : ℕ
  pub resend_view_change : ℕ
  pub view_change_period : ℕ
  pub null_request : ℕ
  pub buffer_size : ℕ
  pub max_concurrent_num_from : ℕ
  pub max_concurrent_num_to : ℕ

abbrev second : ℕ
second = 1000000000

abbrev pub new_default_options : Options
new_default_options = record {
  chain = "0";
  id = "0";
  n = 4;
  q = 3;
  k = 20;
  block_size = 2000;
  block_timeout = 8 * second;
  block_interval = 10 * second;
  view_change = 5 * second;
  resend_view_change = 5 * second;
  view_change_period = 0;
  null_request = 4 * second;
  buffer_size = 100;
  max_concurrent_num_from = 1;
  max_concurrent_num_to = 1;
}

correct_timeout : Options → Options
correct_timeout o =
    if leb o.block_interval o.block_timeout
    then record o { block_timeout = 4 * o.block_interval / 5 }
    else o

correct_period : Options → Options
correct_period o =
    if ltb 0 o.view_change_period && leb o.view_change_period o.block_interval
    then record o { view_change_period = 1000 * o.block_interval }
    else o

correct_quorum : Options → Options
correct_quorum o = if ltb (3 * o.q + 1) (o.n * 2) then record o { q = (o.n * 2 - 1) / 3 + 1 } else o

unfoldable pub corrected : Options → Option Options
unfolding correct_timeout correct_period correct_quorum
corrected o = if ltb o.n 4 then none else some (correct_quorum (correct_period (correct_timeout o)))
