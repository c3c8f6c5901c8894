-- ===== src/Daemon/Redirected.antt =====
-- proctool/bin/daemon.rs: a redirect to a terminal, and one to what is no terminal.
pub mod Quiet
pub mod Reopened
pub mod Refused
