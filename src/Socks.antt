-- ===== src/Socks.antt =====
-- worker/services/socks.go: the SOCKS5 server of a worker, byte for byte.
mod Wire
mod Auth
mod Request
pub mod Udp
pub mod Datagrams
pub mod Handshake
pub mod Requests
unfoldable pub use Wire.*
unfoldable pub use Auth.*
unfoldable pub use Request.*
