-- ===== src/Checker.antt =====
-- worker/utils/structs.go: Checker, which decides whether an address is reached through an upstream.
mod Defs
pub mod Domains
pub mod Decisions
unfoldable pub use Defs.*
