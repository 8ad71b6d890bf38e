-- ===== src/CallRecord.antt =====
-- include/commonStructures.hpp and src/commonStructures.cpp: the call states, the call detail
-- record (CDR), the result of a call, and the text of a record.
-- Time points are nanoseconds since the epoch of the system clock, none before it. The local
-- calendar (`std::localtime`, `std::put_time`) is the parameter `local_time` of the seconds.
mod Defs
pub mod Fields
pub mod Reading
unfoldable pub use Defs.*
