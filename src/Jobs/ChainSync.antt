-- ===== src/Jobs/ChainSync.antt =====
-- daemon/jobs/chainsync.go: the job that walks over the chain and brings stored rows into line with
-- lbrycrd.
pub mod ErrorLog
pub mod Align
pub mod Txs
pub mod Vouts
pub mod Loop
