-- ===== src/Protocol.antt =====
-- Protocol/: the record that a client sends and its 32-byte frame.
pub mod Words
pub mod Codec
