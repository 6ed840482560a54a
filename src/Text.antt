-- ===== src/Text.antt =====
-- Go strings and the functions of `strings` and `strconv` that the program calls. A string is the
-- list of the code points of well-formed UTF-8.
mod Basic
mod Case
mod Lines
mod Numbers
mod Maps
mod Sorting
mod Laws
unfoldable pub use Basic.*
unfoldable pub use Case.*
unfoldable pub use Lines.*
unfoldable pub use Numbers.*
unfoldable pub use Maps.*
unfoldable pub use Sorting.*
pub use Laws.*
