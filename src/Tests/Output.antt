-- ===== src/Tests/Output.antt =====
-- Logs, prompts, slices and session ids.
use tai_mcp_ssh.Prelude.{◌⊎◌}
use tai_mcp_ssh.Sessions.Id.Parse.{Refused, Accepted, parse_error}
use tai_mcp_ssh.Sessions.Prompt.{needs_input}
use tai_mcp_ssh.Prelude.{
  Bool, true, false, Option, none, some, [], ◌∷◌, ◌++◌, ◌≡◌, refl, Text, codes, length, arith, ◌&&◌,
  ◌-◌, ◌≤◌, leb, strip_prefix,
}
use tai_mcp_ssh.Str.Chars.{digit_value, join, strip, contains, before, after}
use tai_mcp_ssh.Str.Lines.{splitlines, is_break, no_break, no_break_sound}
use tai_mcp_ssh.Errors.{ok}
use tai_mcp_ssh.Sessions.Id.{is_safe_char, is_safe_name, parse_session_id}
use tai_mcp_ssh.Sessions.Id.Parse.{Parsed, parse_sound, parse_complete}
use tai_mcp_ssh.Sessions.Prompt.{needs_password, detect_prompt}
use tai_mcp_ssh.Sessions.Prompt.AtEnd.{AtEnd, detect_prompt-AtEnd}
use tai_mcp_ssh.Sessions.Sentinel.{
  overlap, extract_output, search_done, done_at, start_marker, done_prefix, blank_to_eol,
}
use tai_mcp_ssh.Sessions.Sentinel.Marker.{done_marker, done_at-marker}
use tai_mcp_ssh.Sessions.Sentinel.Extract.{finished_log, extract_output_lem}
use tai_mcp_ssh.Sessions.Sentinel.Scan.{search_done-resume, ShortExit, ShortExits, digit_run}
use tai_mcp_ssh.Sessions.Slice.{slice_output}
use tai_mcp_ssh.Sessions.Slice.Bounds.{Fits, IsCut, slice_output-Fits, slice_output-IsCut}

abbrev run_id : Text
run_id = codes "01A"

extract_output_lem_example :
    extract_output
      (finished_log run_id
        (codes "$ make" ∷ [])
        (codes "one" ∷ codes "two" ∷ [])
        (codes "0")
        (codes "$ "))
      run_id
    ≡ codes "one\ntwo"
unfolding join no_break is_break done_at strip_prefix start_marker
extract_output_lem_example =
    extract_output_lem run_id (codes "$ make" ∷ []) (codes "one" ∷ codes "two" ∷ []) b'0' []
      (codes "$ ") (no_break_sound run_id refl)
      ((no_break_sound (codes "$ make") refl, λ e. absurd (ground (arith, e))), tt)
      ((no_break_sound (codes "one") refl, refl), ((no_break_sound (codes "two") refl, refl), tt))
      ((omega arith, omega arith), tt)

done_at-marker_example : done_at run_id (done_marker run_id (codes "17") ++ codes "\n$ ") ≡ some 17
unfolding blank_to_eol
done_at-marker_example =
    done_at-marker run_id b'1' (codes "7") (codes "\n$ ")
      ((omega arith, omega arith), ((omega arith, omega arith), tt))

abbrev old_log : Text
old_log =
    codes
      "a line of output that is longer than what the next scan goes back to read again\n__TAI_DO"

abbrev new_log : Text
new_log = codes "NE__0__01A__\n"

is_short : Option Text → Bool
is_short none = true
is_short (some r) = leb (digit_run r) 22

short_exits : Text → Bool
short_exits [] = true
short_exits (c ∷ s) = is_short (strip_prefix done_prefix (c ∷ s)) && short_exits s

is_short_sound : (s : Text) → is_short (strip_prefix done_prefix s) ≡ true → ShortExit s
unfolding is_short
is_short_sound s h r e = ground (arith, e, h)

short_exits_sound : (s : Text) → short_exits s ≡ true → ShortExits s
unfolding short_exits
short_exits_sound [] h = tt
short_exits_sound (c ∷ s) h =
    (is_short_sound (c ∷ s) (ground arith), short_exits_sound s (ground arith))

search_done-resume_example :
    search_done run_id (length old_log - overlap) true (old_log ++ new_log)
    ≡ search_done run_id 0 true (old_log ++ new_log)
search_done-resume_example =
    search_done-resume run_id old_log new_log (omega arith)
      (short_exits_sound (old_log ++ new_log) short) nothing_yet
  where
    short : short_exits (old_log ++ new_log) ≡ true
    short = unfold short_exits is_short strip_prefix digit_run digit_value in refl

    nothing_yet : search_done run_id 0 true old_log ≡ none
    nothing_yet = unfold search_done done_at strip_prefix in refl

detect_prompt-AtEnd_example :
    AtEnd (codes "x\n[sudo] password for pi: ") needs_password (codes "[sudo] password for pi:")
unfolding detect_prompt strip strip_prefix
detect_prompt-AtEnd_example =
    detect_prompt-AtEnd (codes "x\n[sudo] password for pi: ") needs_password
      (codes "[sudo] password for pi:") refl

slice_output-Fits_example :
    ((slice_output (codes "ok\n")).truncated ≡ false → Fits (codes "ok\n"))
    × (Fits (codes "ok\n")
        → slice_output (codes "ok\n")
          ≡ record { head = codes "ok\n"; tail = []; truncated = false })
slice_output-Fits_example = slice_output-Fits (codes "ok\n")

abbrev many_lines : Text
many_lines =
    codes
      "\n\n\n\n\n\n\n\n\n\n\n\n\n\n\n\n\n\n\n\n\n\n\n\n\n\n\n\n\n\n\n\n\n\n\n\n\n\n\n\n\n\n\n\n\n\n\n\n\n\n\n"

slice_output-IsCut_example :
    ((slice_output many_lines).truncated ≡ true) × IsCut many_lines (slice_output many_lines)
unfolding splitlines is_break
slice_output-IsCut_example =
    slice_output-IsCut many_lines (λ h. let few : 51 ≤ 50 = h.0 in omega arith)

parse_sound_example : Parsed (codes "pi/build") (codes "pi") (codes "build")
unfolding parse_session_id contains before after is_safe_char is_safe_name
parse_sound_example = parse_sound (codes "pi/build") (codes "pi") (codes "build") refl

parse_complete_example : parse_session_id (codes "pi/build") ≡ ok (codes "pi", codes "build")
parse_complete_example =
    parse_complete (codes "pi/build") (codes "pi") (codes "build") parse_sound_example

sudo_runs :
    detect_prompt (codes "Working\n[sudo] password for pi: ")
    ≡ some (needs_password, codes "[sudo] password for pi:")
unfolding detect_prompt strip strip_prefix
sudo_runs = refl

confirm_runs :
    detect_prompt (codes "Do you want to continue? [Y/n] ") ≡ some (needs_input, codes "[Y/n]")
unfolding detect_prompt strip strip_prefix
confirm_runs = refl

midstream_runs : detect_prompt (codes "mentioning [Y/n] options\nfinal line\n") ≡ none
unfolding detect_prompt strip strip_prefix
midstream_runs = refl

-- the host is missing
parse_error_example : Refused (codes "/main") ⊎ Accepted (codes "/main")
parse_error_example = parse_error (codes "/main")
