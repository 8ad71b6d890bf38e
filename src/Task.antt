-- ===== src/Task.antt =====
-- include/task.hpp and src/task.cpp: a call as a task, from its creation to its result.
mod Defs
pub mod Laws
pub mod Final
unfoldable pub use Defs.*
