-- ===== src/Audit/Redact.antt =====
-- `_CMD_SECRET_PATTERNS` and `_redact_command` of audit.py.
mod Scan
pub mod Hides
use tai_mcp_ssh.Prelude.{
  ℕ, zero, suc, Bool, true, false, ◌||◌, Option, none, some, List, [], ◌∷◌, ◌++◌, ◌==◌,
  if◌then◌else◌, Text, codes, strip_prefix, length, ◌≡◌, refl,
}
use tai_mcp_ssh.Str.Chars.{is_space}

abbrev pub redacted : Text
redacted = codes "<redacted>"

-- `\S*`: what is left after the characters that are not spaces
unfoldable pub after_word : Text → Text
after_word [] = []
after_word (c ∷ s) = let rest = after_word s in if is_space c then c ∷ s else rest

-- `\S+`
unfoldable pub word_end : Text → Option Text
word_end [] = none
word_end (c ∷ s) = if is_space c then none else some (after_word s)

with_group : Text → Option Text → Option (Text × Text)
with_group group none = none
with_group group (some rest) = some (group, rest)

-- `[=\s](\S+)` after `--password`, with group 1 and the rest of the text
password_value : Text → Option (Text × Text)
unfolding with_group
password_value [] = none
password_value (c ∷ s) =
    if (c == b'=') || is_space c
    then with_group (codes "--password" ++ c ∷ []) (word_end s)
    else none

password_after : Option Text → Option (Text × Text)
unfolding password_value
password_after none = none
password_after (some s) = password_value s

unfoldable pub match_password : Text → Option (Text × Text)
unfolding password_after
match_password s = password_after (strip_prefix (codes "--password") s)

reference_after : Option Text → Option (Text × Text)
unfolding with_group
reference_after none = none
reference_after (some s) = with_group (codes "keychain://") (word_end s)

unfoldable pub match_reference : Text → Option (Text × Text)
unfolding reference_after
match_reference s = reference_after (strip_prefix (codes "keychain://") s)

module _ (matches : Text → Option (Text × Text)) where
  -- one round of `sub`, given what follows a match and what follows a character
  unfoldable pub replace : (Text → Text) → ℕ → Text → Option (Text × Text) → Text
  replace again c s none = c ∷ again s
  replace again c s (some (group, rest)) = group ++ (redacted ++ again rest)

  -- `pattern.sub(r"\1<redacted>", s)`, for a pattern that does not match the empty text
  unfoldable pub sub_from : ℕ → Text → Text
  sub_from zero s = s
  sub_from (suc fuel) [] = []
  sub_from (suc fuel) (c ∷ s) = replace (sub_from fuel) c s (matches (c ∷ s))

  unfoldable pub sub : Text → Text
  sub s = sub_from (length s) s

-- `_redact_command`
unfoldable pub redact_command : Text → Text
redact_command cmd = sub match_reference (sub match_password cmd)
