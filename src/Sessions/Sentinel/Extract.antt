-- ===== src/Sessions/Sentinel/Extract.antt =====
-- The output that is extracted from a log with both markers.
use tai_mcp_ssh.Prelude.{
  ℕ, false, none, some, List, [], ◌∷◌, ◌++◌, ◌≡◌, ◌≢◌, refl, ap, ◌∙◌, sym, arith, All-append,
  text_eq_iff, ◌==◌, Text, codes, All, append_assoc, append-nil, text_eq_refl,
}
use tai_mcp_ssh.Str.Chars.{rstrip_none, join}
use tai_mcp_ssh.Str.Lines.{IsLine, is_break, no_break, no_break_sound, unlines, splitlines-unlines}
use tai_mcp_ssh.Sessions.Sentinel.{
  start_marker, done_at, strip_cr, after_start, until_done, extract_output, between, joined,
  done_prefix, done_suffix, blank_to_eol,
}
use tai_mcp_ssh.Sessions.Sentinel.Marker.{IsDigit, value, done_marker, done_at-marker}

no_cr : (l : Text) → IsLine l → All (λ c. (c == 13) ≡ false) l
unfolding is_break
no_cr [] h = tt
no_cr (c ∷ l) h = (ground (arith, h.0), no_cr l h.1)

strip_cr-line : (l : Text) → IsLine l → strip_cr l ≡ l
unfolding strip_cr
strip_cr-line l h = rstrip_none _ l (no_cr l h)

-- A line of the log that is not the START marker.
abbrev pub IsBefore : Text → Text → Type 0
IsBefore log_id l = IsLine l × (l ≢ start_marker log_id)

-- A line of the log that is not read as the DONE marker.
abbrev pub IsBody : Text → Text → Type 0
IsBody log_id l = IsLine l × (done_at log_id l ≡ none)

after_start-append :
    (log_id : Text) (pre lines : List Text)
    → All (IsBefore log_id) pre
    → IsLine (start_marker log_id)
    → after_start log_id (pre ++ start_marker log_id ∷ lines) ≡ some lines
unfolding after_start
after_start-append log_id [] lines h m =
    ground (arith, strip_cr-line (start_marker log_id) m, text_eq_refl (start_marker log_id))
after_start-append log_id (l ∷ pre) lines h m = ground (
  arith,
  strip_cr-line l h.0.0,
  text_eq_iff l (start_marker log_id),
  h.0.1,
  after_start-append log_id pre lines h.1 m,
)

until_done-append :
    (log_id : Text) (body : List Text) (last : Text) (n : ℕ) (lines : List Text)
    → All (IsBody log_id) body
    → IsLine last
    → done_at log_id last ≡ some n
    → until_done log_id (body ++ last ∷ lines) ≡ some body
unfolding until_done
until_done-append log_id [] last n lines h m e = ground (arith, strip_cr-line last m, e)
until_done-append log_id (l ∷ body) last n lines h m e =
    ground (arith, strip_cr-line l h.0.0, h.0.1, until_done-append log_id body last n lines h.1 m e)

start_marker-IsLine : (log_id : Text) → IsLine log_id → IsLine (start_marker log_id)
unfolding start_marker no_break
start_marker-IsLine log_id h =
    All-append _ (codes "__TAI_START__") _ (no_break_sound (codes "__TAI_START__") refl)
      (All-append _ log_id (codes "__") h (no_break_sound (codes "__") refl))

digits-IsLine : (ds : Text) → All IsDigit ds → IsLine ds
unfolding is_break
digits-IsLine [] h = tt
digits-IsLine (d ∷ ds) h = (ground (arith, h.0), digits-IsLine ds h.1)

done_marker-IsLine :
    (log_id ds : Text) → IsLine log_id → All IsDigit ds → IsLine (done_marker log_id ds)
unfolding done_suffix no_break
done_marker-IsLine log_id ds h k = All-append _ done_prefix _ (no_break_sound done_prefix refl) (
    All-append _ ds _ (digits-IsLine ds k) (
      All-append _ (codes "__") _ (no_break_sound (codes "__") refl)
        (All-append _ log_id (codes "__") h (no_break_sound (codes "__") refl))))

done_marker-done_at :
    (log_id : Text) (d : ℕ) (ds : Text)
    → All IsDigit (d ∷ ds)
    → done_at log_id (done_marker log_id (d ∷ ds)) ≡ some (value 0 (d ∷ ds))
unfolding blank_to_eol
done_marker-done_at log_id d ds h =
    ap (done_at log_id) (sym (append-nil (done_marker log_id (d ∷ ds))))
    ∙ done_at-marker log_id d ds [] h

-- The log of a finished command: other lines, the START marker, the lines of the output, the DONE
-- marker, and whatever comes after.
abbrev pub log_lines : Text → List Text → List Text → Text → List Text
log_lines log_id pre body ds = pre ++ start_marker log_id ∷ (body ++ done_marker log_id ds ∷ [])

abbrev pub finished_log : Text → List Text → List Text → Text → Text → Text
finished_log log_id pre body ds post = unlines (log_lines log_id pre body ds) ++ post

module _ (log_id : Text) where
  body-IsLine : (body : List Text) → All (IsBody log_id) body → All IsLine body
  body-IsLine [] h = tt
  body-IsLine (l ∷ body) h = (h.0.0, body-IsLine body h.1)

  before-IsLine : (pre : List Text) → All (IsBefore log_id) pre → All IsLine pre
  before-IsLine [] h = tt
  before-IsLine (l ∷ pre) h = (h.0.0, before-IsLine pre h.1)

module _ (log_id : Text) (pre body : List Text) (d : ℕ) (ds post : Text) (id_line : IsLine log_id)
    (outside : All (IsBefore log_id) pre) (inside : All (IsBody log_id) body)
    (number : All IsDigit (d ∷ ds)) where
  log_lines-IsLine : All IsLine (log_lines log_id pre body (d ∷ ds))
  log_lines-IsLine = All-append _ pre _ (before-IsLine log_id pre outside) (
    start_marker-IsLine log_id id_line,
    All-append _ body _ (body-IsLine log_id body inside)
        (done_marker-IsLine log_id (d ∷ ds) id_line number, tt),
  )

  -- From the log of a finished command the lines between the two markers are extracted, joined by
  -- line feeds, if the START marker is not among the lines before it and none of the lines between
  -- reads as the DONE marker of this command.
  pub extract_output_lem :
      extract_output (finished_log log_id pre body (d ∷ ds) post) log_id ≡ join (10 ∷ []) body
  unfolding extract_output
  extract_output_lem =
      ap (λ ls. between log_id (after_start log_id ls))
        (splitlines-unlines (log_lines log_id pre body (d ∷ ds)) post log_lines-IsLine
          ∙ append_assoc pre _ _)
      ∙ ap (between log_id)
          (after_start-append log_id pre _ outside (start_marker-IsLine log_id id_line))
      ∙ ap joined (
          ap (until_done log_id) (append_assoc body _ _)
          ∙ until_done-append log_id body (done_marker log_id (d ∷ ds)) (value 0 (d ∷ ds)) _ inside
              (done_marker-IsLine log_id (d ∷ ds) id_line number)
              (done_marker-done_at log_id d ds number))
