-- ===== src/Ipc.antt =====
-- Ipc/: the shared ring of frames between the server and the reader.
pub mod Ring
pub mod Queue
pub mod Spsc
pub mod EventFd
mod Tests
