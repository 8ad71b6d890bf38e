-- ===== src/Queue.antt =====
-- include/queue.hpp and src/queue.cpp: the bounded queue of waiting calls, one per caller's number.
-- The state of a call is the queue with the world of tasks and promises that it points into.
mod Defs
pub mod Dismiss
pub mod Final
pub mod Find
pub mod Valid
pub mod Push
pub mod Laws
pub mod Line
pub mod Admit
pub mod Runs
unfoldable pub use Defs.*
