-- ===== src/Services.antt =====
-- worker/services: what the HTTP and SOCKS5 services do with a client from its first byte to the
-- end of its transfer, and how they reach the upstream proxy.
pub mod Dial
pub mod Chain
pub mod Calls
pub mod Copy
pub mod Bind
pub mod Release
pub mod World
pub mod SocksServer
pub mod SocksAccount
pub mod HttpServer
pub mod HttpAccount
pub mod Account
