-- ===== src/Sessions/Sentinel.antt =====
-- `_done_re`, `_extract_output` and `_extract_partial_output` of sessions.py: the markers between
-- which the output of a command stands in its log.
pub mod Marker
pub mod Extract
pub mod Scan
use tai_mcp_ssh.Prelude.{
  ℕ, zero, suc, ◌+◌, ◌*◌, Bool, true, false, ◌&&◌, Option, none, some, List, [], ◌∷◌, ◌++◌, ◌==◌,
  if◌then◌else◌, Text, codes, text_eq, strip_prefix, is_some,
}
use tai_mcp_ssh.Str.Chars.{digit_value, is_space, rstrip, join}
use tai_mcp_ssh.Str.Lines.{splitlines}

unfoldable pub start_marker : Text → Text
start_marker log_id = codes "__TAI_START__" ++ (log_id ++ codes "__")

abbrev pub done_prefix : Text
done_prefix = codes "__TAI_DONE__"

-- what stands in a DONE marker behind the exit code
unfoldable pub done_suffix : Text → Text
done_suffix log_id = codes "__" ++ (log_id ++ codes "__")

-- `\d*`, with the value of the digits so far
unfoldable pub more_digits : ℕ → Text → ℕ × Text
more_digits n [] = (n, [])
more_digits n (c ∷ s) = elim (digit_value c) [
  | none ↦ (n, c ∷ s)
  | some d ↦ more_digits (n * 10 + d) s
]

-- `(\d+)`: its value, and what follows
unfoldable pub read_exit : Text → Option (ℕ × Text)
unfolding more_digits
read_exit [] = none
read_exit (c ∷ s) = elim (digit_value c) [ none ↦ none | some d ↦ some (more_digits d s) ]

-- `\s*$` under `re.MULTILINE`
unfoldable pub blank_to_eol : Text → Bool
blank_to_eol [] = true
blank_to_eol (c ∷ s) = if c == 10 then true else is_space c && blank_to_eol s

unfoldable pub suffix_at : Text → ℕ × Text → Option ℕ
unfolding blank_to_eol done_suffix
suffix_at log_id (exit, s) = elim (strip_prefix (done_suffix log_id) s) [
  | none ↦ none
  | some rest ↦ if blank_to_eol rest then some exit else none
]

pub exit_at : Text → Option Text → Option ℕ
exit_at log_id none = none
exit_at log_id (some s) = elim (read_exit s) [ none ↦ none | some r ↦ suffix_at log_id r ]

-- `_done_re(log_id).match(s)`, as the value of `int(m.group(1))`
unfoldable pub done_at : Text → Text → Option ℕ
unfolding exit_at suffix_at read_exit
done_at log_id s = exit_at log_id (strip_prefix done_prefix s)

-- `_done_re(log_id).search(content, pos)`; the Boolean says whether `^` matches here
unfoldable pub search_done : Text → ℕ → Bool → Text → Option ℕ
search_done log_id pos bol [] = none
search_done log_id (suc pos) bol (c ∷ s) = search_done log_id pos (c == 10) s
search_done log_id zero bol (c ∷ s) =
    let rest = search_done log_id zero (c == 10) s in
    elim (if bol then done_at log_id (c ∷ s) else none) [ none ↦ rest | some exit ↦ some exit ]

-- how far behind the end of the last scan the next one starts
abbrev pub overlap : ℕ
overlap = 64

unfoldable pub strip_cr : Text → Text
strip_cr line = rstrip (λ c. c == 13) line

-- the lines behind the first START marker
unfoldable pub after_start : Text → List Text → Option (List Text)
unfolding strip_cr
after_start log_id [] = none
after_start log_id (line ∷ lines) =
    if text_eq (strip_cr line) (start_marker log_id) then some lines else after_start log_id lines

cons_some : Text → Option (List Text) → Option (List Text)
cons_some line none = none
cons_some line (some lines) = some (line ∷ lines)

-- the lines before the first DONE marker
unfoldable pub until_done : Text → List Text → Option (List Text)
unfolding strip_cr cons_some
until_done log_id [] = none
until_done log_id (line ∷ lines) =
    if is_some (done_at log_id (strip_cr line))
    then some []
    else cons_some line (until_done log_id lines)

line_feed : Text
line_feed = 10 ∷ []

joined : Option (List Text) → Text
unfolding line_feed
joined none = []
joined (some lines) = join line_feed lines

between : Text → Option (List Text) → Text
unfolding joined
between log_id none = []
between log_id (some lines) = joined (until_done log_id lines)

unfoldable pub extract_output : Text → Text → Text
unfolding between joined
extract_output content log_id = between log_id (after_start log_id (splitlines false content))

unfoldable pub extract_partial_output : Text → Text → Text
unfolding joined
extract_partial_output content log_id = joined (after_start log_id (splitlines false content))
