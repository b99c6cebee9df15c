-- ===== src/Lib.antt =====
-- L0, a ledger of many chains: its consensus, its account state, and the containers they use.
--
-- The parts. Each chain has replicas that run LBFT (core/consensus/lbft). The primary collects
-- transactions into batches. For each batch every replica keeps an instance (lbft-core.go) that goes
-- through the phases PrePrepare, Prepare and Commit and counts votes of both chains in ballot boxes
-- (components/utils/vote). A committed batch is announced; announcements are counted again
-- (recvCommitted), the batch is kept until all before it are there (checkpoint), and the batches of
-- one height are written together as a block (writeBlock). The block chain keeps the transactions
-- that wait, by account (core/blockchain/validator.go, txpool.go), and the ledger executes the
-- transactions of a block, by type, on the balances (core/ledger/ledger.go, core/ledger/state). A
-- contract may generate transactions, which the maker of a block appends to it. The block chain
-- (core/blockchain/blockchain.go) makes blocks of the outputs of consensus and takes them.
-- Transactions across chains are kept apart (core/ledger/merge), netted for each pair of chains and sent
-- to the parent chain (core/merge/merge.go), which counts its peers' messages (core/merge/filter.go).
--
-- The files.
--   Base: numbers, Boolean tests, lists, maps as association lists, integers for big.Int.
--   Elements, LinkedList, SortedList, TxPool: Go's list.List with a map beside it, in
--     components/utils/linkedlist, components/utils/sortedlinkedlist, core/blockchain/txpool.go.
--   VarInt: components/utils/varlen.go. VarInt.Words: the arrays of components/utils/data_convert.go.
--   Vote: components/utils/vote/vote.go.
--   Transaction: core/types/transaction.go, its data.
--   State: core/ledger/state/state.go and balance.go.
--   Validator: core/blockchain/validator.go. Account and Exception are validatorAccount, Accounts is the
--     Validator over all accounts with Pool for what consensus does with it, and Grouping is what consensus fetches for a block.
--   Ledger: the execution of a block, of core/ledger/ledger.go, and Ledger.Store its AppendBlock.
--   BlockStorage: core/ledger/block_storage, with the queries of ledger.go. Ledger.Store takes the list
--     of the blocks for its database.
--   Contracts: core/ledger/contract, what contracts read and write.
--   Blockchain: core/blockchain/blockchain.go, with the blocks of core/types/block.go.
--   Merge: Storage is core/ledger/merge/storage.go, TxMerge core/merge/merge.go, and Filter filter.go and
--     parser.go, with the caches of core/merge/cache.
--   Lbft.Message, Lbft.Options: message.go, and options.go with the corrections of NewLbft.
--   Lbft.Core, Lbft.Votes: lbft-core.go, and its counting of votes.
--   Lbft.Requests: submitRequestBatches and handleRequestBatch of lbft.go.
--   Lbft.AsyncSeqNo: asyncseqno.go, as steps of the instances that wait.
--   Lbft.Views: sendViewChange, recvViewChange and newView of lbft.go. Tickets are references
--     into a heap. Lbft.Views.Events: what handleTransaction and handleConsensusMsg do about the view.
--   Lbft.Counters, Lbft.Route, Lbft.Instances, Lbft.Committed, Lbft.Checkpoint, Lbft.Blocks: parts of
--     lbft.go, in the order in which a message meets them. These are the counters,
--     handleConsensusMsg, the map of instances with addCommittedReqeustBatch, recvCommitted,
--     checkpoint, and handleCommittedRequestBatch with writeBlock.
--   Noops: core/consensus/noops/noops.go, which meets the pool of Validator in Noops.Silent.
-- A method has the name of the source's in snake case, takes the receiver last and returns its new
-- value. A loop or the part of a method behind its guards is a function of its own.
--
-- Conventions. A word of w bits is a number with its wrap-around written out. A panic is `none`, or
-- `panic` where other outcomes are named. A Go map is an association list; the order in which a range
-- visits it is the order of the list, of which nothing is assumed. A pointer to a list element
-- is its identity. Mutexes make each method one step. A handler of an instance is one step as well,
-- although handlePrePrepare runs in a goroutine beside the loop: handlers that run at the same time
-- are not modelled.
--
-- Parameters. The sign of a balance is lost when it is stored. Otherwise serialization and SHA-256
-- appear as the key of a ticket or a list element and as the hash of a batch or a transaction; nothing
-- is assumed of them, and keys may collide. The database is
-- a function from accounts to what it stores. The verification of a batch by the pool is a function.
-- The ledger's answers to the pool, the signer of a transaction, the difference of two sets and the
-- contract machine with its store are functions, of which nothing is assumed.
-- `Compare` of the sorted list is a function of which one law is assumed where it is used.
--
-- Fuel. Only the loops of committedAndRemoveTransaction, checkExceptionTransaction and the
-- consensus service of the block chain that take elements out of a list run on fuel, one more than
-- the length of the list, which is enough since every round but the last takes an element out.
--
-- Not modelled: timers of LBFT but those of a view change; contract machines, networks, rpc,
-- cryptography and serialization, which are input and output, libraries or glue.
pub mod Base
pub mod Elements
pub mod VarInt
pub mod LinkedList
pub mod SortedList
pub mod TxPool
pub mod Vote
pub mod Transaction
pub mod State
pub mod Validator
pub mod Contracts
pub mod Ledger
pub mod BlockStorage
pub mod Blockchain
pub mod Lbft
pub mod Merge
pub mod Noops
