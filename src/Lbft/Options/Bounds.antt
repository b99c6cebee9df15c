-- ===== src/Lbft/Options/Bounds.antt =====
-- What the corrected options guarantee.
use l.Base.{◌+◌, ◌-◌, ◌*◌, ◌/◌, ◌≤◌, ◌<◌, ◌≡◌, String, some, arith}
use l.Vote.{Vote, size, voter_by_ticket}
use l.Vote.Tally.{IsTally}
use l.Vote.Quorum.{quorum_unique}
use l.Lbft.Options.{Options, corrected}

pub record IsSound (o : Options) : Type 0 where
  pub enough_replicas : 4 ≤ o.n
  pub majority : o.n < 2 * o.q
  pub two_thirds : 2 * o.n ≤ 3 * o.q + 1
  pub above_minimum : 3 ≤ o.q
  pub timeout_first : 0 < o.block_interval → o.block_timeout < o.block_interval
  pub period_long : 0 < o.view_change_period → o.block_interval ≤ o.view_change_period

-- Corrected options are sound: at least 4 replicas, a quorum of at least 3, above half of N and
-- at least (2 N - 1) / 3, a block timeout below a positive block interval, and a positive view
-- change period not below the block interval.
pub corrected-IsSound : (o o' : Options) → corrected o ≡ some o' → IsSound o'
unfolding corrected
corrected-IsSound o o' h = record {
  enough_replicas = ground arith;
  majority = ground arith;
  two_thirds = ground arith;
  above_minimum = ground arith;
  timeout_first = λ p. ground arith;
  period_long = λ p. ground arith;
}

-- A quorum that was too low is corrected to one that tolerates f = (N - 1) / 3 faulty replicas:
-- two quorums share more than f replicas.
pub corrected_quorum :
    (o o' : Options)
    → corrected o ≡ some o'
    → 3 * o.q + 1 < 2 * o.n
    → o'.n + (o'.n - 1) / 3 < 2 * o'.q
unfolding corrected
corrected_quorum o o' h low = ground arith

-- Under corrected options two tickets that both reach the quorum in a ballot box in order have
-- the same key, if no more than N replicas voted.
pub corrected_unique :
    (o o' : Options) {T : Type 0} (key : T → String) (v : Vote T) (t u : T)
    → corrected o ≡ some o'
    → IsTally key v
    → size v ≤ o'.n
    → o'.q ≤ voter_by_ticket key t v
    → o'.q ≤ voter_by_ticket key u v
    → key t ≡ key u
corrected_unique o o' key v t u h i few ht hu =
    quorum_unique key v t u o'.n o'.q i few (corrected-IsSound o o' h).majority ht hu
