-- ===== src/Captain/Analytics.antt =====
-- captain/internal/server/service/analytics_service.go: the two buffers of records, how they are
-- filled, and the goroutine of each that empties it. Both are the same code at another type.
mod Defs
pub mod Batches
unfoldable pub use Defs.*
