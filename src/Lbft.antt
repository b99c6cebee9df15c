-- ===== src/Lbft.antt =====
-- core/consensus/lbft: the LBFT consensus, one module for each of its files or parts of one.
pub mod Message
pub mod Options
pub mod Counters
pub mod Checkpoint
pub mod Route
pub mod Votes
pub mod Core
pub mod AsyncSeqNo
pub mod Views
pub mod Requests
pub mod Blocks
pub mod Committed
pub mod Instances
