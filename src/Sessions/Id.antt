-- ===== src/Sessions/Id.antt =====
-- `parse_session_id` of sessions.py, with `_SAFE_SESSION_NAME`.
pub mod Parse
use tai_mcp_ssh.Prelude.{
  ℕ, ◌+◌, Bool, true, false, not, ◌&&◌, ◌||◌, Option, none, some, List, [], ◌∷◌, ◌++◌, ◌≡◌, ◌≢◌,
  refl, arith, leb, ◌==◌, if◌then◌else◌, Text, All, any, Bool-cases, inl, inr,
}
use tai_mcp_ssh.Str.Chars.{
  before, after, contains, before-after, contains-before, before-append, after-append,
  contains-append_sep,
}
use tai_mcp_ssh.Errors.{Exc, value_error, Result, ok, raise}

abbrev slash : ℕ
slash = b'/'

-- one character of `[A-Za-z0-9_-]`
unfoldable pub is_safe_char : ℕ → Bool
is_safe_char c =
    (leb b'A' c && leb c b'Z')
    || (leb b'a' c && leb c b'z')
    || (leb b'0' c && leb c b'9')
    || c == b'_'
    || c == b'-'

all_safe : Text → Bool
all_safe [] = true
all_safe (c ∷ s) = is_safe_char c && all_safe s

is_empty : Text → Bool
is_empty [] = true
is_empty (c ∷ s) = false

-- `_SAFE_SESSION_NAME.fullmatch(name)`
unfoldable pub is_safe_name : Text → Bool
unfolding is_safe_char all_safe is_empty
is_safe_name name = not (is_empty name) && all_safe name

unfoldable pub parse_session_id : Text → Result (Text × Text)
unfolding is_empty
parse_session_id session_id =
    if not (contains slash session_id)
    then raise value_error
    else let host = before slash session_id in
      let name = after slash session_id in
      if is_empty host || is_empty name
      then raise value_error
      else if not (is_safe_name name)
      then raise value_error
      else ok (host, name)
