-- ===== src/Shell.antt =====
-- `shlex.quote`, and the command lines that the program builds with it.
use tai_mcp_ssh.Prelude.{
  ℕ, Bool, not, ◌&&◌, ◌||◌, [], ◌∷◌, ◌++◌, leb, ◌==◌, if◌then◌else◌, Text, codes, any, ◌≡◌, refl,
}

-- a character outside `[\w@%+=:,./-]`, over ASCII
unfoldable pub is_unsafe : ℕ → Bool
is_unsafe c = not (
    (leb b'a' c && leb c b'z')
    || (leb b'A' c && leb c b'Z')
    || (leb b'0' c && leb c b'9')
    || c == b'_'
    || c == b'@'
    || c == b'%'
    || c == b'+'
    || c == b'='
    || c == b':'
    || c == b','
    || c == b'.'
    || c == b'/'
    || c == b'-')

abbrev pub single : ℕ
single = 39

-- what `s.replace("'", "'\"'\"'")` makes of a character
unfoldable pub quote_char : ℕ → Text
quote_char c = if c == single then codes "'\"'\"'" else c ∷ []

unfoldable pub quote_all : Text → Text
unfolding quote_char
quote_all [] = []
quote_all (c ∷ s) = quote_char c ++ quote_all s

-- `shlex.quote(s)`
unfoldable pub quote : Text → Text
unfolding is_unsafe quote_all
quote [] = codes "''"
quote (c ∷ s) = if any is_unsafe (c ∷ s) then single ∷ (quote_all (c ∷ s) ++ single ∷ []) else c ∷ s

quote_runs : quote (codes "echo it's") ≡ codes "'echo it'\"'\"'s'"
unfolding quote
quote_runs = refl
