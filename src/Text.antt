-- ===== src/Text.antt =====
-- Go strings as lists of bytes, with the functions of `strings` and `strconv` that the sources call
-- (Split, SplitN, Trim, ToUpper, ToLower, HasPrefix, HasSuffix, Fields, Index, Atoi, Itoa).
-- Upper and lower case are those of ASCII, the only letters that the sources compare.
mod Split
mod Trim
mod Number
mod HostPort
mod Equality
unfoldable pub use Split.*
unfoldable pub use Trim.*
unfoldable pub use Number.*
unfoldable pub use HostPort.*
unfoldable pub use Equality.*
