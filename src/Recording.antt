-- ===== src/Recording.antt =====
-- The recordings of terminal sessions: how they are read from the database and played back.
pub mod Stream
pub mod ControlReader
pub mod Reader
pub mod Write
pub mod Recorder
