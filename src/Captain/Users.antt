-- ===== src/Captain/Users.antt =====
-- captain/internal/server/service/user_service.go and captain/internal/server/handlers/user_handler.go.
mod Defs
mod Proxies
unfoldable pub use Defs.*
unfoldable pub use Proxies.*
pub mod Generating
mod Handlers
pub mod Creating
pub mod Notices
unfoldable pub use Handlers.*
