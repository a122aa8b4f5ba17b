-- ===== src/Manager/Worker.antt =====
-- worker/manager/worker.go and websocket_manager.go: the manager that the services call, and the
-- events that Captain sends it.
mod Defs
pub mod Telemetry
pub mod Reports
pub mod Kept
pub mod Sessions
pub mod Events
pub mod Config
unfoldable pub use Defs.*
