-- ===== src/Config/Laws.antt =====
-- What the methods of ThreadSafeConfig guarantee.
pub mod Update
pub mod Frozen
pub mod Same
pub mod Watching
pub mod Ending
pub mod Reread
