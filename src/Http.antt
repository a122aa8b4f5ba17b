-- ===== src/Http.antt =====
-- worker/utils/structs.go: HTTPRequest, the head of a client's HTTP request with its credentials.
mod Defs
pub mod Credentials
pub mod Ports
unfoldable pub use Defs.*
