-- ===== src/Connpool.antt =====
-- worker/utils/pool.go: pooled connections to an upstream.
mod Defs
pub mod Filling
pub mod Held
pub mod Ownership
unfoldable pub use Defs.*
