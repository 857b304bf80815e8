-- ===== src/Text.antt =====
-- C strings as lists of bytes without the closing NUL, and the functions of <string.h> and
-- <stdlib.h> that the daemon calls on them.
mod Defs
mod Laws
pub use Defs.{Text, codes}
unfoldable pub use Defs.{
  str_eq, has_prefix, strncmp_eq, strchr, strrchr, contains, skip_while, until, after, is_space,
  is_digit, atoi,
}
pub use Laws.*
