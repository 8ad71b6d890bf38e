-- ===== src/Manager.antt =====
-- include/manager.hpp and src/manager.cpp: the manager of calls, between config, server and pool.
mod Defs
pub mod Configs
pub mod Rules
pub mod Final
pub mod Ending
pub mod Replace
unfoldable pub use Defs.*
pub mod Laws
pub mod Fresh
pub mod Arrive
pub mod NewPool
pub mod Renew
pub mod Move
pub mod Events
pub mod Step
pub mod Days
pub mod Reread
pub mod Request
pub mod Watch
