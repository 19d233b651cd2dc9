-- ===== src/Tests.antt =====
-- Concrete runs.
mod Scheduler
mod Blocks
mod Scripts
mod Misc
mod Jobs
mod Claims
mod Addresses
mod Transactions
mod Upgrades
mod Sync
mod Datastore
