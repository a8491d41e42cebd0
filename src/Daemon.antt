-- ===== src/Daemon.antt =====
-- internal/daemon: the background process that keeps the bridges.
pub mod Manager
pub mod Handler
pub mod Preparing
pub mod Handoff
pub mod Accepting
