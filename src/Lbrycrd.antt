-- ===== src/Lbrycrd.antt =====
-- lbrycrd/script.go and lbrycrd/blockchain.go: claim scripts, addresses and claim ids.
pub mod Hex
pub mod Outpoint
pub mod Script
pub mod Address
