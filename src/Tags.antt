-- ===== src/Tags.antt =====
-- The tags that a proxy user writes behind the password: worker/utils/structs.go (Tag, BasicAuth),
-- worker/services/socks.go (handlePasswordAuth) and the texts that Captain prints for users
-- (captain/internal/server/functions/userFunctions.go).
mod Defs
pub mod Accounts
pub mod Convert
pub mod Reading
pub mod Words
pub mod Roundtrip
unfoldable pub use Defs.*
