-- ===== src/Captain.antt =====
-- captain/internal/server/websocket: Captain's side of the link to its workers.
pub mod Otp
pub mod Workers
pub mod Events
pub mod Exchange
pub mod Replies
pub mod Places
pub mod Registration
pub mod Access
pub mod Analytics
pub mod Pools
pub mod Users
