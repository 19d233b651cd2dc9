-- ===== src/Processing.antt =====
-- daemon/processing: the transactions of a block and the blocks of the chain.
pub mod Tx
pub mod Amounts
pub mod Inputs
pub mod Addresses
pub mod Outputs
pub mod Transactions
pub mod Turns
pub mod Claims
pub mod Errors
pub mod Graph
pub mod Scheduler
pub mod Blocks
