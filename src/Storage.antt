-- ===== src/Storage.antt =====
-- Storage/: the reader's rotating file of frames.
pub mod Disk
pub mod FileStore
pub mod Tests
