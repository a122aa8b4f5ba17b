-- ===== src/Captain/Registration.antt =====
-- captain/internal/server/service/worker_service.go and captain/internal/server/handlers/
-- worker_handler.go: the workers that Captain knows, and how one of them connects.
mod Defs
mod Handlers
unfoldable pub use Defs.*
unfoldable pub use Handlers.*
pub mod Joining
