-- ===== src/Manager/Upstreams.antt =====
-- worker/manager/pool_upstream_manager.go: round-robin choice among the pool's upstreams. The index
-- is a uint64 that `Next` advances by one atomic addition.
mod Defs
pub mod Rotation
unfoldable pub use Defs.*
