-- ===== src/Util.antt =====
-- util/utility.go
pub mod Bytes
