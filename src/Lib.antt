-- ===== src/Lib.antt =====
-- Verification of a sharded blockchain emulator: the consensus of the nodes of a shard, the chain
-- that they agree on, the relaying of transactions between shards, and the re-partitioning of the
-- accounts into shards.
--
-- A supervisor sends transactions to the leaders of the shards. A leader keeps them in a pool
-- (core/txpool.go), packs some into a block and proposes it; the nodes of the shard agree on it by
-- PBFT (consensus_shard/pbft_all/messageHandle.go), and each adds it to its chain
-- (chain/blockchain.go, storage/storage.go), which executes the transactions on the status trie.
-- The leader then relays the transactions whose recipients live in other shards
-- (consensus_shard/pbft_all/pbftInside_module.go), whose nodes put them into their pools
-- (pbftOutside_module.go). What a consensus node does with a request is behind the interface
-- ExtraOpInConsensus (pbftMod_interface.go). In the CLPA mode the supervisor builds a graph of the
-- accounts that transact with each other, partitions it (partition/), and sends the changes to the
-- leaders, who exchange the accounts that move and agree on the new partition as on a block
-- (pbftInside_moduleCLPA.go, pbftOutside_moduleCLPA.go, accountTransfer_module.go). In the Broker
-- mode no transaction is relayed: the committee of the supervisor (committee_broker.go) cuts one
-- across shards in two, first from its sender to a broker and, once that is in a block, from the
-- broker to its recipient; the CLPA-Broker mode does both (accountTransfermod_Broker.go,
-- committee_clpa_broker.go). The leaders report each block to the supervisor
-- (supervisor/supervisor.go), which measures and stops the nodes.
--
-- The files, and what they model:
--   Base       shared names; lists, Go maps, integers and the panic monad, with their lemmas
--   Params     params/static_config.go, and the variables of params/global_config.go
--   Message    message/message.go: framing, and every message type; Message/Roundtrip
--   Utils      utils/utils_partition.go: Addr2Shard and ModBytes; Utils/Bounds
--   Core       core/: Core/Transaction, Core/Account, Core/Block, Core/Txpool (the pool), with
--              Txpool/Packing, Txpool/Relays and Txpool/Transfer on its operations
--   Chain      Chain/Backend (tries, buckets, encodings: parameters with laws), Chain/Storage
--              (storage/storage.go), Chain/State (execution), Chain/Blocks (making and adding
--              blocks), Chain/Proof and Chain/Merkle (chain/merkleproof.go); Chain/Ledger is the
--              abstract ledger; Chain/Conservation, Chain/Money, Chain/Execution, Chain/Growth and
--              Chain/Leader are about the chain
--   Pbft       Pbft/Messages, Pbft/Node (pbft.go), Pbft/Interface, Pbft/Handlers
--              (messageHandle.go: Propose, handlePrePrepare, handlePrepare, handleCommit),
--              Pbft/Monitor (the monitor of Propose),
--              Pbft/CatchUp (handleRequestOldSeq, handleSendOldSeq), Pbft/ViewChange
--              (view_change.go), Pbft/Removal (DeleteElementsInList of toolFuncs.go);
--              Pbft/Runs has the steps and the runs of a node; Pbft/Safety, Pbft/Marks,
--              Pbft/Once, Pbft/Committed and Pbft/Votes are about them
--   Relay      Relay/Inside (pbftInside_module.go and the sending of toolFuncs.go), Relay/Outside
--              (pbftOutside_module.go); Relay/Module fills the interface of Pbft/Interface;
--              Relay/Sorting, Relay/Messages, Relay/Credit and Relay/Skipping are about them
--   Clpa       Clpa/State (dataSupport), Clpa/Send and Clpa/Transfer (accountTransfer_module.go),
--              Clpa/Inside and Clpa/Outside (the modules inside and outside of the consensus);
--              Clpa/Queue, Clpa/Accounts, Clpa/Install and Clpa/Missing are about the
--              exchange of accounts
--   Partition  Partition/Graph (graph.go), Partition/State, Partition/Setup and
--              Partition/Propagation (partition_CLPA.go), Partition/Aero (partition_AERO.go);
--              Partition/Undirected, Partition/Totals, Partition/Moves, Partition/Result,
--              Partition/Counted and Partition/Occupied are about them
--   Supervisor Supervisor/Signal (supervisorStopModule.go), Supervisor/Handling (supervisor.go),
--              Supervisor/Measure with its children (supervisor/measure), Supervisor/Committee
--              with its children Sending, Relay, Epochs and Clpa (supervisor/committee);
--              Supervisor/Stops, Supervisor/Counts, Committee/Reports, Committee/Advance and
--              Committee/Delivered are about them
--   Broker     Broker/State (broker/broker.go, message/message_broker.go), Broker/Desk (what
--              committee_broker.go and committee_clpa_broker.go do alike), Broker/Committee and
--              Broker/Regraph (the rest of the two), Broker/Inside (pbftInside_moduleBroker.go),
--              Broker/Outside (pbftOutside_moduleBroker.go, pbftOutside_modCLPABroker.go),
--              Broker/Transfer (accountTransfermod_Broker.go), Broker/Epoch
--              (pbftInside_modCLPABroker.go); Broker/Parts, Broker/Settled, Broker/Confirmed,
--              Broker/Remembered, Broker/Dealt and Broker/Protocol are about the committees,
--              Broker/Reported about a block, Broker/Behind about a node that is left behind, and
--              Broker/Moved, Broker/Placed, Broker/Leaving and Broker/Repartitioned about the
--              exchange of accounts
--   Tests      concrete tries, encodings, shards and nodes, and the theorems applied to them
--
-- State and operations. A Go struct is a record, a pointer method a function from the old state to
-- the new one, and a panic, or an error that the caller turns into one, is `none`. A handler of a
-- consensus node is one attempt to run it under its lock: it waits, runs, or gets stuck on a mutex
-- that is held (`Outcome`), and a run of a node is a sequence of such steps in any order. Sent
-- messages are values that the node collects. Messages are taken decoded. HandleinPropose of the
-- CLPA-Broker mode waits twice for other messages: each look is an attempt (`attempt_propose`),
-- between which the node may handle any message. An operation of a committee is one step. A round of
-- Propose is one step too, though it holds sequenceLock alone: its writes to the node are taken at
-- once, and not between those of a handler.
--
-- Bounds. `uint64` is a number with its wrap-around written out; `int` lengths, views, epochs and
-- node numbers stay below 2^31, and heights below 2^64 - 1, so that conversions change nothing and
-- the loops over heights end. The loops are structural, the search for a transaction back through the
-- chain on the height, the loop over old heights on their number, and the label propagation on its
-- bound on the iterations. One loop runs on fuel, that over the finished epochs
-- (Supervisor/Committee/Epochs): each of its rounds deletes an entry, and its fuel is their number.
--
-- Maps are association lists, and the order of one `range` over a map is that of its entries; where
-- a loop runs over a map anew each time, its orders are an argument (Partition/Propagation). `float64`
-- is a parameter, but for the counts of the measures, which are exact multiples of a half.
--
-- Not modelled: go-ethereum's tries, bolt, gob, JSON and SHA-256 (parameters, with the documented
-- laws); networks, logs, CSV files and timers (I/O); the agent of the AERO re-partitioning, which is
-- Python (a parameter); the loops of the CLPA and CLPA-Broker committees with their clocks, the
-- latencies among the measures, and the VRF. The errors of bolt's Put, for a blank or oversized key or
-- a full disk, which the source turns into a panic.
pub mod Base
pub mod Params
pub mod Message
pub mod Utils
pub mod Core
pub mod Chain
pub mod Pbft
pub mod Relay
pub mod Clpa
pub mod Partition
pub mod Supervisor
pub mod Broker
pub mod Tests
