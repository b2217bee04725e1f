-- ===== src/Text.antt =====
-- Texts as lists of code points, with the operations of Rust's `str`, `String` and integer parsing
-- that the program calls. A Rust `char` is a code point; the program's own comparisons are with
-- ASCII texts.
mod Basic
mod Numbers
mod Laws
mod Pieces
mod RoundTrip
mod Splits
mod Affixes
unfoldable pub use Basic.{
  is_whitespace, trim_start, trim_end, trim, str_eq, lower, upper, to_ascii_lowercase,
  to_ascii_uppercase, eq_ignore_ascii_case, starts_with, ends_with, strip_prefix, is_ascii_digit,
  contains,
}
unfoldable pub use Pieces.{
  split_step, split_on, split_whitespace, split_once, rsplit_once, is_empty, join, trim_matches,
  after_first,
}
unfoldable pub use Numbers.{digit_value, parse_digits, parse_uint, decimal_digits, decimal}
pub use Basic.{Str, text}
pub use Laws.*
pub use Splits.*
pub use Affixes.*
pub use RoundTrip.*
