-- ===== src/Manager/Users.antt =====
-- worker/manager/user_manager.go: the cache of the users that Captain has confirmed, the logins
-- that wait for Captain, and the count of a user's connections.
mod Defs
pub mod Login
pub mod Answers
pub mod Connections
pub mod Races
pub mod Pools
unfoldable pub use Defs.*
