-- ===== src/GoMap.antt =====
-- Go's `map[K]V` as an association list with one entry for each key. The order of a `range` over
-- a map is not specified: code whose result depends on it takes the order as an argument.
mod Laws
mod Size
pub use Laws.*
pub use Size.*
mod Defs
unfoldable pub use Defs.{get, has, put, delete, keys, select, values, map_values}
pub use Defs.{GoMap, Distinct}
