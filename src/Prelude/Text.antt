-- ===== src/Prelude/Text.antt =====
-- Python's `str` as a list of code points, `bytes` as a list of numbers below 256, and the methods
-- of both that the program calls. White space, case and digits are those of ASCII.
mod Chars
mod Split
mod Number
mod Hex
mod Fields
mod Format
unfoldable pub use Chars.*
unfoldable pub use Split.*
unfoldable pub use Number.*
unfoldable pub use Hex.*
unfoldable pub use Format.*
unfoldable pub use Fields.*
