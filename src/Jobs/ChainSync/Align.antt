-- ===== src/Jobs/ChainSync/Align.antt =====
-- alignBlock, alignTx and alignVin of daemon/jobs/chainsync.go: a stored row takes the values of lbrycrd.
pub mod Columns
pub mod Blocks
pub mod Txs
pub mod Vins
