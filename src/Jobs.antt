-- ===== src/Jobs.antt =====
-- daemon/jobs: the background jobs.
pub mod ClaimTrie
pub mod Bids
pub mod Values
pub mod ChainSync
pub mod Validation
pub mod Mempool
pub mod Reprocess
pub mod Paging
pub mod TrieSync
pub mod OutputFix
