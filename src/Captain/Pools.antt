-- ===== src/Captain/Pools.antt =====
-- captain/internal/server/service/pool_service.go and captain/internal/server/handlers/pool_handler.go.
mod Defs
mod Service
pub mod Grouping
unfoldable pub use Defs.*
unfoldable pub use Service.*
mod Handlers
unfoldable pub use Handlers.*
pub mod Creating
pub mod Deleting
