-- ===== src/Config.antt =====
-- include/config.hpp and src/config.cpp: the settings, their normalisation, and the two classes
-- that hold them, `Config` and `ThreadSafeConfig`.
pub mod Settings
pub mod Common
pub mod ThreadSafe
pub mod Monitor
pub mod Simple
pub mod Laws
pub mod Normalize
pub mod Range
