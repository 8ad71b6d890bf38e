-- ===== src/Http.antt =====
-- include/httpServer.hpp and src/httpServer.cpp: routing a request and filling the reply. Reading,
-- writing and the sockets are Boost's.
mod Defs
pub mod Server
pub mod Connections
pub mod Visits
pub mod Accept
pub mod Serving
pub mod Final
pub mod Alive
pub mod Waiting
pub mod Steps
pub mod Advance
pub mod Life
pub mod Finishing
pub mod Schedules
pub mod Replies
pub mod Laws
unfoldable pub use Defs.*
pub mod Served
pub mod Clients
