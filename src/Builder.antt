-- ===== src/Builder.antt =====
-- include/builder.hpp and src/builder.cpp: the construction of the manager with all it needs.
mod Defs
pub mod Laws
unfoldable pub use Defs.*
