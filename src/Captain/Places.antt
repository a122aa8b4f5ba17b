-- ===== src/Captain/Places.antt =====
-- Regions, countries and upstreams: captain/internal/server/service/pool_service.go and
-- captain/internal/server/handlers/pool_handler.go.
mod Defs
mod Handlers
unfoldable pub use Defs.*
unfoldable pub use Handlers.*
pub mod Checks
