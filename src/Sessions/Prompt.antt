-- ===== src/Sessions/Prompt.antt =====
-- `_PROMPT_PATTERNS` and `_detect_prompt` of sessions.py.
pub mod AtEnd
use tai_mcp_ssh.Prelude.{
  ℕ, zero, suc, ◌+◌, ◌*◌, Bool, true, false, not, ◌&&◌, ◌||◌, Option, none, some, List, [], ◌∷◌,
  ◌++◌, ◌==◌, if◌then◌else◌, Text, codes, text_eq, strip_prefix, is_some, take_last, length, refl,
  ◌≡◌,
}
use tai_mcp_ssh.Str.Chars.{strip}

pub data Status : Type 0 where
  done still_running needs_password needs_input busy : Status

-- `[ \t]*\Z`
unfoldable pub blanks : Text → Bool
blanks [] = true
blanks (c ∷ s) = (c == 32 || c == 9) && blanks s

then_blanks : Option Text → Bool
then_blanks none = false
then_blanks (some s) = blanks s

-- `[^:\n]*:[ \t]*\Z`
user_colon : Text → Bool
user_colon [] = false
user_colon (c ∷ s) = if c == b':' then blanks s else if c == 10 then false else user_colon s

-- `[^:\n]+:[ \t]*\Z`
user_prompt : Option Text → Bool
user_prompt none = false
user_prompt (some []) = false
user_prompt (some (c ∷ s)) = not (c == b':' || c == 10) && user_colon s

-- `(?:/\[fingerprint\])?\)\?[ \t]*\Z`
fingerprint : Option Text → Bool
unfolding then_blanks
fingerprint none = false
fingerprint (some s) = elim (strip_prefix (codes "/[fingerprint]") s) [
  | none ↦ then_blanks (strip_prefix (codes ")?") s)
  | some r ↦ then_blanks (strip_prefix (codes ")?") r)
]

-- the characters under `re.IGNORECASE`, for letters
same_letter : ℕ → ℕ → Bool
same_letter lower c = c == lower || c + 32 == lower

-- `\[Y/n\][ \t]*\Z` and `\[y/N\][ \t]*\Z` under `re.IGNORECASE`
yes_no : Text → Bool
unfolding same_letter
yes_no (a ∷ y ∷ b ∷ n ∷ e ∷ s) =
    a == b'[' && same_letter b'y' y && b == b'/' && same_letter b'n' n && e == b']' && blanks s
yes_no s = false

-- A pattern is a test on a position: whether the text behind it starts a line, and that text.
-- Every pattern ends in `\Z`, so what it matches is the whole of that text.
abbrev pub Pattern : Type 0
Pattern = Bool → Text → Bool

unfoldable pub sudo : Pattern
unfolding user_prompt user_colon blanks
sudo at_start s = user_prompt (strip_prefix (codes "[sudo] password for ") s)

-- `(?:^|\n)Password:[ \t]*\Z`: `^` is the start of the tail, and a match may begin with a line feed
unfoldable pub password : Pattern
unfolding then_blanks blanks
password at_start s =
    (at_start && then_blanks (strip_prefix (codes "Password:") s))
    || then_blanks (strip_prefix (10 ∷ codes "Password:") s)

unfoldable pub hostkey : Pattern
unfolding fingerprint blanks
hostkey at_start s =
    fingerprint (strip_prefix (codes "Are you sure you want to continue connecting (yes/no") s)

unfoldable pub confirm : Pattern
unfolding yes_no blanks
confirm at_start s = yes_no s

unfoldable pub prompt_patterns : List (Pattern × Status)
unfolding sudo password hostkey confirm
prompt_patterns =
    (sudo, needs_password)
    ∷ (password, needs_password)
    ∷ (hostkey, needs_input)
    ∷ (confirm, needs_input)
    ∷ (confirm, needs_input)
    ∷ []

-- `pattern.search(s)`, as `m.group(0)`
unfoldable pub search : Pattern → Bool → Text → Option Text
search p at_start [] = if p at_start [] then some [] else none
search p at_start (c ∷ s) =
    let rest = search p false s in if p at_start (c ∷ s) then some (c ∷ s) else rest

unfoldable pub first_prompt : List (Pattern × Status) → Text → Option (Status × Text)
first_prompt [] tail = none
first_prompt ((p, status) ∷ ps) tail = elim (search p true tail) [
  | some m ↦ some (status, strip m)
  | none ↦ first_prompt ps tail
]

abbrev pub prompt_window : ℕ
prompt_window = 500

unfoldable pub detect_prompt : Text → Option (Status × Text)
unfolding prompt_patterns first_prompt search
detect_prompt content = first_prompt prompt_patterns (take_last prompt_window content)
