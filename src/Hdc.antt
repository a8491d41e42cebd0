-- ===== src/Hdc.antt =====
-- internal/hdcserver: the backend that translates adb services to those of a local hdc server.
pub mod Channel
pub mod Shell
pub mod Transfer
pub mod Sync
pub mod Properties
pub mod Forward
pub mod Services
