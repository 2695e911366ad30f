-- ===== src/Common/JsMap.antt =====
-- A JavaScript `Map` (and an object used as a dictionary): its entries in insertion order, a key
-- at most once. `set` on a present key keeps its place; on a new key it appends.
mod Defs
mod Laws
mod Sorted
unfoldable pub use Defs.*
pub use Laws.*
pub use Sorted.*
