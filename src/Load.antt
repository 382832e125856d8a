-- ===== src/Load.antt =====
-- bench/telemetry_load.cpp: the client that sends telemetry to the server as fast as it is taken.
pub mod Options
pub mod Sender
mod Tests
