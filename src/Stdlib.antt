-- ===== src/Stdlib.antt =====
-- The parts of the C++ standard library that the program's text handling rests on.
pub mod Decimal
pub mod Stoll
