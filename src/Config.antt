-- ===== src/Config.antt =====
-- Config/: the command line.
pub mod Numbers
pub mod Parser
mod Tests
