-- ===== src/HashMap.antt =====
-- `std::collections::HashMap` as an association list in which the first entry of a key counts.
-- `IsUnique` says that no later entry of the same key is hidden below it.
mod Laws
mod Defs
pub use Laws.*
unfoldable pub use Defs.{
  HashMap, get, contains_key, insert, remove, retain, len, IsUnique, keys_where, contains,
}
