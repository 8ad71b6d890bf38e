-- ===== src/Json.antt =====
-- include/jsonParser.hpp and src/jsonParser.cpp. The property tree and its reader belong to Boost:
-- the parameter `PropertyTree P` holds the four calls that the program makes. `read_json` keeps the
-- old tree when it throws, as Boost documents.
mod Defs
unfoldable pub use Defs.*
pub mod Laws
