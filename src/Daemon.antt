-- ===== src/Daemon.antt =====
-- daemon/daemon.go: the loop that brings the database up to the height of lbrycrd, one block at a
-- time, and the watchdog that reports a block which takes too long.
pub mod Watchdog
pub mod Handshake
pub mod Iteration
