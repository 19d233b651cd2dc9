-- ===== src/Lib.antt =====
-- Chainquery reads the blocks of the LBRY chain from a lbrycrd node, and keeps their transactions
-- and claims in an SQL database. A daemon brings the database up to the height of the node, block
-- by block; jobs run beside it. Modelled are the parts of that work which decide something:
--
-- - Util/Bytes: util/utility.go, ReverseBytes and Min.
-- - Lbrycrd/Hex, Lbrycrd/Outpoint: the hexadecimal codec of Go's library and, in
--   lbrycrd/blockchain.go, ClaimIDFromOutpoint.
-- - Lbrycrd/Script and its children, Lbrycrd/Address: lbrycrd/script.go. The parsers of claims,
--   supports and updates, the tests on scripts, purchases, the types of scripts and the addresses. Build
--   holds the scripts that the parsers are measured by.
-- - Processing/Tx, Processing/Errors: the transactions as lbrycrd/reponse.go has them, and the errors
--   of daemon/processing/errors.go.
-- - Processing/Amounts: the debits and credits of daemon/processing/transaction.go.
-- - Processing/Graph and its children: the dependency graph of a block, in
--   daemon/processing/block_scheduler.go. A field of the struct blockTxGraph is a field of the record
--   Graph; buildDependencies is build_dependencies, releaseChildren release_children, and so on.
-- - Processing/Scheduler and its children: runBlockTxScheduler of the same file. Its local variables
--   are the record Loop; a round of its loop is `round`, which takes what the stopper and the
--   channels do as an argument, so that a list of rounds is one interleaving of the loop with its
--   workers and its retry timers. Processing a transaction may come to any result.
-- - Processing/Blocks: daemon/processing/block.go. Store is the interface to the database, Rows has
--   the functions on single rows, Reorg checkHandleReorg, Process RunBlockProcessing, which calls
--   Rows and Reorg, and Head the checks of stored blocks.
-- - Daemon: daemon/daemon.go. Watchdog has its state and settings, Handshake the handing of a height to
--   a block worker, which updates the watchdog, and Iteration the loop around it.
-- - Processing/Inputs, Processing/Outputs: ProcessVin and ProcessVout of daemon/processing/outpoint.go.
--   Outputs hands the script of a claim to processAsClaim in Processing/Claims/Outputs.
-- - Processing/Transactions: ProcessTx of daemon/processing/transaction.go, which calls Addresses, Inputs
--   and Outputs. The order in which its workers finish the inputs and the outputs is an argument.
-- - Processing/Turns: the order in which the workers for inputs and outputs finish their jobs. An order
--   is a list of numbers, and whatever it is each job is finished once.
-- - Datastore: datastore/datastore.go, a Get and a Put for each table over the queries and the writes.
-- - Upgrades: daemon/upgrademanager. Scripts is script.go, and the upgrades themselves are the steps of
--   run_upgrades.
-- - Processing/Addresses: daemon/processing/address.go, the rows and the map of a transaction's
--   addresses. A loop over the outputs or inputs is note_all, with the one over their addresses in
--   note_addresses.
-- - Processing/Claims: daemon/processing/claim.go. Message is what is read of a decoded claim, Metadata
--   setMetaDataInfo, Publisher setPublisherInfo and setCertificateInfo, with the check of certificates
--   in daemon/jobs/certificatesync.go, which completes what they leave open. Scripts has the scripts that
--   claim a name or update a claim, which call the parsers of Lbrycrd/Script, and Outputs supports and
--   processAsClaim.
-- - Jobs: ClaimTrie, Bids, Reprocess and Paging are daemon/jobs/claimtriesync.go: expiration and the
--   status of a claim, the election of the claim that controls a name, the batches of claims, and
--   the loop of the paged queries. TrieSync is the run of that job: Claims has syncClaim, Spent the claims
--   whose outputs were spent, Batches the batches of ids and Run the whole with its status, which calls
--   Reprocess. Values is daemon/jobs/valuesync.go, Validation daemon/jobs/chainvalidation.go, Mempool
--   daemon/jobs/mempoolsync.go. OutputFix is daemon/jobs/outputfixsync.go, whose workers and channel are
--   a step relation.
-- - Jobs/ChainSync: daemon/jobs/chainsync.go. ErrorLog is recordAndReturnError, Align the alignments of
--   single rows, Txs alignTxs, Vouts alignVouts, which fills an argument of Txs, and Loop
--   processNextBlock, which calls RunBlockProcessing of Processing/Blocks/Process for a missing block,
--   and the loop of ChainSync.
--
-- A Go string is a list of bytes, and a slice has no capacity beyond its length, but for the log
-- of errors in Jobs/ChainSync/Vouts, whose array two slices share; an index out of range
-- is the outcome `panic` of the type Go. A map is a function, with the zero value where a key is
-- missing; a struct is a record. Heights, counts and times are not negative. Logs and metrics are
-- left out. An error is given by what errors.As finds in it, or by a constructor.
--
-- The database, lbrycrd, the hash functions, the protobuf decoder, btcutil, txscript and the clock
-- are parameters. The loops of the code are recursions on a list or a number: checkHandleReorg on
-- the 100 steps that its own bound allows, deleteBlockWithRetry on its three attempts, the dispatch
-- on the free workers. The loop of the scheduler and that of the daemon run over
-- the list of events that they are given, and say so where it ends before them.
--
-- The loop of ChainSync has the number of rounds for which there is time as its fuel, the paged
-- queries one turn more than there are rows, the batches of ids one turn more than there are ids, and
-- the passes over spent outputs one turn more than the highest id of an output.
--
-- Not modelled: alignVout and alignClaim of chainsync.go, which are an argument, processGenesisBlock and
-- the older scheduler in block.go with its workers, the fetching of transactions, the locks of single
-- claims, the RPC client, the generated models (model) and the HTTP API; the queries themselves are SQL.
pub mod Prelude
pub mod Util
pub mod Lbrycrd
pub mod Processing
pub mod Datastore
pub mod Upgrades
pub mod Daemon
pub mod Jobs
mod Tests
