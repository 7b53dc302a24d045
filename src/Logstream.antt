-- ===== src/Logstream.antt =====
-- internal/logstream: the log of a running pod, kept for replay and followed across reconnects.
pub mod Ring
pub mod Replay
pub mod Position
pub mod Resume
pub mod Samples
