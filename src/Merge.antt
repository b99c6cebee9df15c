-- ===== src/Merge.antt =====
-- core/merge and core/ledger/merge: transactions across chains, which are kept by their time, netted
-- for each pair of chains, sent to the parent chain, and counted there.
pub mod Storage
pub mod TxMerge
pub mod Filter
