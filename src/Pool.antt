-- ===== src/Pool.antt =====
-- include/threadpool.hpp and src/threadpool.cpp: the operators that take calls from the queue.
mod Defs
pub mod Join
pub mod Final
pub mod CallId
pub mod Accept
pub mod Execute
pub mod Rounds
pub mod Alike
pub mod Invariant
pub mod Moves
pub mod Finish
pub mod Turn
pub mod Kept
pub mod Placed
pub mod Progress
pub mod Joining
pub mod Destroyed
pub mod Answered
pub mod Dismissed
pub mod Arrival
pub mod Drain
pub mod Stopping
unfoldable pub use Defs.*
