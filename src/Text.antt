-- ===== src/Text.antt =====
-- C strings as lists of bytes without the final NUL, and what the program uses of the C library on
-- them: `isdigit`, `isalnum`, `strcmp`, `atoi`, and the conversions of `printf` and `scanf`.
mod Chars
pub mod Decimal
pub mod Scan
pub mod Int
pub mod Pad
unfoldable pub use Chars.*
