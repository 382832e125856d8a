-- ===== src/Server.antt =====
-- The Server process: Server/src/Server.cpp.
pub mod Buffer
pub mod Receive
pub mod Net
pub mod History
pub mod Clients
pub mod Connections
pub mod Signals
pub mod Ingress
pub mod Events
pub mod Startup
pub mod Script
mod Tests
