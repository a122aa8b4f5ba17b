-- ===== src/Cmap.antt =====
-- worker/utils/map.go: the sharded map that guards the proxy's shared state. A `ConcurrentMap` is
-- the list of its shards, each a Go map. Every operation holds one shard's lock while it runs, so
-- it is one step here. `get_or` stands for indexing the slice, which is in range on every map that
-- `new_concurrent_map` made (`IsSharded`).
mod Defs
pub mod Laws
pub mod Refinement
pub mod Iter
unfoldable pub use Defs.*
