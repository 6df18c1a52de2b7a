-- ===== src/Programs.antt =====
-- The programs under cmd.
pub mod Listener
pub mod Main
pub mod Configured
pub mod Examples
