-- ===== src/Jobs/TrieSync.antt =====
-- The rest of daemon/jobs/claimtriesync.go: the job that brings the claims into line with lbrycrd's claim
-- trie.
pub mod Claims
pub mod Batches
pub mod Spent
pub mod Run
pub mod Advance
pub mod Ends
