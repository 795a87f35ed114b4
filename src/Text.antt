-- ===== src/Text.antt =====
-- What the program uses of Go's `strings`, `bytes` and `strconv`, over byte lists.
mod Search
mod Trim
mod Case
mod Split
mod Decimal
unfoldable pub use Search.*
unfoldable pub use Trim.*
unfoldable pub use Case.*
unfoldable pub use Split.*
unfoldable pub use Decimal.*
