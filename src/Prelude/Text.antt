-- ===== src/Prelude/Text.antt =====
-- Text as a list of ASCII codes: the definitions, and in the children the laws.
mod Defs
mod Suffix
mod Split
mod Trim
pub use Suffix.*
pub use Split.*
pub use Trim.*
unfoldable pub use Defs.{
  Text, codes, teq, text_lt, has_prefix, has_suffix, trim_prefix, trim_suffix, lower_char, to_lower,
  is_space, trim_left, trim_right, trim_space, trim_dots, push_head, has_char, contains_any, split,
  cut, quote,
}
