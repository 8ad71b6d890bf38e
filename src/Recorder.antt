-- ===== src/Recorder.antt =====
-- include/recorder.hpp and src/recorder.cpp: the file of call detail records.
mod Defs
pub mod File
unfoldable pub use Defs.*
