-- ===== src/Processing/Blocks.antt =====
-- daemon/processing/block.go: the blocks of the chain. The database and lbrycrd are parameters.
pub mod Store
pub mod Rows
pub mod Reorg
pub mod Process
pub mod Head
