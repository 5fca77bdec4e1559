-- ===== src/Sessions/Sentinel/Scan.antt =====
-- The scan of `_poll` from `scan_pos - _OVERLAP` on, and a scan of the whole log.
use mathlib.Core.Option
use tai_mcp_ssh.Prelude.{
  ℕ, suc, ◌+◌, ◌-◌, ◌*◌, ◌≤◌, ◌<◌, Bool, true, false, Option, none, some, [], ◌∷◌, ◌++◌, ◌≡◌, refl,
  ap, ◌∙◌, sym, arith, leb, leb→le, leb_false→lt, ◌==◌, if◌then◌else◌, Text, codes, strip_prefix,
  length, length-append, Bool-cases, Option-cases, inl, inr,
}
use tai_mcp_ssh.Str.Chars.{digit_value}
use tai_mcp_ssh.Sessions.Sentinel.{
  overlap, done_at, done_prefix, done_suffix, blank_to_eol, suffix_at, exit_at, read_exit,
  more_digits, search_done,
}
use tai_mcp_ssh.Sessions.Sentinel.Marker.{read_exit_step, exit_at_step}

-- the length of the run of digits that a text begins with
unfoldable pub digit_run : Text → ℕ
digit_run [] = 0
digit_run (c ∷ s) = elim (digit_value c) [ none ↦ 0 | some d ↦ suc (digit_run s) ]

strip_prefix-extend :
    (p s t : Text)
    → length p ≤ length s
    → strip_prefix p (s ++ t) ≡ Option.map (λ r. r ++ t) (strip_prefix p s)
unfolding strip_prefix
strip_prefix-extend [] s t h = refl
strip_prefix-extend (c ∷ p) [] t h = absurd (omega arith)
strip_prefix-extend (c ∷ p) (d ∷ s) t h = ground (arith, strip_prefix-extend p s t)

length-strip_prefix :
    (p s : Text) {r : Text} → strip_prefix p s ≡ some r → length r + length p ≡ length s
unfolding strip_prefix
length-strip_prefix [] s h = ground arith
length-strip_prefix (c ∷ p) [] h = cc
length-strip_prefix (c ∷ p) (d ∷ s) {r} h = ground (arith, length-strip_prefix p s {r = r})

more_digits-extend :
    (n : ℕ) (s t : Text)
    → digit_run (s ++ t) < length s
    → more_digits n (s ++ t) ≡ ((more_digits n s).0, (more_digits n s).1 ++ t)
unfolding more_digits digit_run
more_digits-extend n [] t h = absurd (omega arith)
more_digits-extend n (c ∷ s) t h = elim (Option-cases (digit_value c)) [
  | inl e ↦ ground (arith, e)
  | inr (d, e) ↦ ground (arith, e, more_digits-extend (n * 10 + d) s t)
]

length-more_digits :
    (n : ℕ) (s t : Text)
    → digit_run (s ++ t) < length s
    → length (more_digits n s).1 + digit_run (s ++ t) ≡ length s
unfolding more_digits digit_run
length-more_digits n [] t h = absurd (omega arith)
length-more_digits n (c ∷ s) t h = elim (Option-cases (digit_value c)) [
  | inl e ↦ ground (arith, e)
  | inr (d, e) ↦ ground (arith, e, length-more_digits (n * 10 + d) s t)
]

blank_to_eol-extend : (s t : Text) → blank_to_eol s ≡ false → blank_to_eol (s ++ t) ≡ false
unfolding blank_to_eol
blank_to_eol-extend [] t h = cc
blank_to_eol-extend (c ∷ s) t h = ground (arith, blank_to_eol-extend s t)

after_suffix : Option Text → ℕ → Option ℕ
after_suffix none n = none
after_suffix (some rest) n = if blank_to_eol rest then some n else none

suffix_at_lem :
    (log_id : Text) (n : ℕ) (s : Text)
    → suffix_at log_id (n, s) ≡ after_suffix (strip_prefix (done_suffix log_id) s) n
unfolding suffix_at after_suffix
suffix_at_lem log_id n s = ground arith

after_suffix-extend :
    (o : Option Text) (n : ℕ) (t : Text)
    → after_suffix o n ≡ none
    → after_suffix (Option.map (λ r. r ++ t) o) n ≡ none
unfolding after_suffix
after_suffix-extend none n t h = refl
after_suffix-extend (some r) n t h = ground (arith, blank_to_eol-extend r t)

suffix_at-extend :
    (log_id : Text) (n : ℕ) (s t : Text)
    → length (done_suffix log_id) ≤ length s
    → suffix_at log_id (n, s) ≡ none
    → suffix_at log_id (n, s ++ t) ≡ none
suffix_at-extend log_id n s t long h =
    suffix_at_lem log_id n (s ++ t)
    ∙ ap (λ o. after_suffix o n) (strip_prefix-extend (done_suffix log_id) s t long)
    ∙ after_suffix-extend (strip_prefix (done_suffix log_id) s) n t
        (sym (suffix_at_lem log_id n s) ∙ h)

exit_at-unread : (log_id : Text) (s : Text) → read_exit s ≡ none → exit_at log_id (some s) ≡ none
unfolding exit_at
exit_at-unread log_id s h = ground (arith, h)

read_exit-none : (c : ℕ) (s : Text) → digit_value c ≡ none → read_exit (c ∷ s) ≡ none
unfolding read_exit
read_exit-none c s h = ground (arith, h)

digit_run_step :
    (c d : ℕ) (s : Text) → digit_value c ≡ some d → digit_run (c ∷ s) ≡ suc (digit_run s)
unfolding digit_run
digit_run_step c d s h = ground (arith, h)

length-done_suffix : (log_id : Text) → length (done_suffix log_id) ≡ length log_id + 4
unfolding done_suffix
length-done_suffix log_id = omega (arith, length-append log_id (codes "__"))

exit_at-extend :
    (log_id : Text) (s t : Text)
    → digit_run (s ++ t) + length log_id + 4 ≤ length s
    → exit_at log_id (some s) ≡ none
    → exit_at log_id (some (s ++ t)) ≡ none
exit_at-extend log_id [] t long h = absurd (omega arith)
exit_at-extend log_id (c ∷ s) t long h = elim (Option-cases (digit_value c)) [
  | inl e ↦ exit_at-unread log_id (c ∷ (s ++ t)) (read_exit-none c (s ++ t) e)
  | inr (d, e) ↦
      let run = digit_run_step c d (s ++ t) e in
      exit_at_step log_id (c ∷ (s ++ t)) (read_exit_step c d (s ++ t) e)
      ∙ ap (suffix_at log_id) (more_digits-extend d s t (omega arith))
      ∙ suffix_at-extend log_id (more_digits d s).0 (more_digits d s).1 t
          (omega (arith, length-done_suffix log_id, length-more_digits d s t))
          (sym (exit_at_step log_id (c ∷ s) (read_exit_step c d s e)) ∙ h)
]

done_at_lem : (log_id s : Text) → done_at log_id s ≡ exit_at log_id (strip_prefix done_prefix s)
unfolding done_at
done_at_lem log_id s = refl

exit_at-none : (log_id : Text) → exit_at log_id none ≡ none
unfolding exit_at
exit_at-none log_id = refl

-- What follows the prefix of a marker at the start of the text has at most 22 digits in front.
abbrev pub ShortExit : Text → Type 0
ShortExit s = (r : Text) → strip_prefix done_prefix s ≡ some r → digit_run r ≤ 22

abbrev pub ShortExits : Text → Type 0
ShortExits [] = Unit
ShortExits (c ∷ s) = ShortExit (c ∷ s) × ShortExits s

done_at-extend :
    (log_id old new : Text)
    → length log_id ≤ 26
    → overlap ≤ length old
    → ShortExit (old ++ new)
    → done_at log_id old ≡ none
    → done_at log_id (old ++ new) ≡ none
done_at-extend log_id old new id_fits long short h =
    done_at_lem log_id (old ++ new) ∙ elim (Option-cases (strip_prefix done_prefix old)) [
      | inl e ↦
          ap (exit_at log_id) (extend ∙ ap (Option.map (λ r. r ++ new)) e) ∙ exit_at-none log_id
      | inr (r, e) ↦
          let e' : strip_prefix done_prefix (old ++ new) ≡ some (r ++ new) =
            extend ∙ ap (Option.map (λ r. r ++ new)) e in
          ap (exit_at log_id) e'
          ∙ exit_at-extend log_id r new
              (omega (arith, short (r ++ new) e', length-strip_prefix done_prefix old {r = r} e))
              (ap (exit_at log_id) (sym e) ∙ sym (done_at_lem log_id old) ∙ h)
    ]
  where
    extend :
        strip_prefix done_prefix (old ++ new)
        ≡ Option.map (λ r. r ++ new) (strip_prefix done_prefix old)
    extend = strip_prefix-extend done_prefix old new (omega arith)

search_step :
    (log_id : Text) (bol : Bool) (c : ℕ) (s : Text)
    → done_at log_id (c ∷ s) ≡ none
    → search_done log_id 0 bol (c ∷ s) ≡ search_done log_id 0 (c == 10) s
unfolding search_done
search_step log_id true c s h = ground (arith, h)
search_step log_id false c s h = refl

search_none_tail :
    (log_id : Text) (bol : Bool) (c : ℕ) (s : Text)
    → search_done log_id 0 bol (c ∷ s) ≡ none
    → search_done log_id 0 (c == 10) s ≡ none
unfolding search_done
search_none_tail log_id bol c s h = ground arith

search_none_here :
    (log_id : Text) (c : ℕ) (s : Text)
    → search_done log_id 0 true (c ∷ s) ≡ none
    → done_at log_id (c ∷ s) ≡ none
unfolding search_done
search_none_here log_id c s h = ground arith

search_skip :
    (log_id : Text) (n : ℕ) (bol : Bool) (c : ℕ) (s : Text)
    → search_done log_id (suc n) bol (c ∷ s) ≡ search_done log_id n (c == 10) s
unfolding search_done
search_skip log_id n bol c s = refl

-- one more character in front of the part that is scanned again
resume_step :
    (log_id : Text) (bol : Bool) (c : ℕ) (old new : Text)
    → length log_id ≤ 26
    → overlap ≤ length old
    → ShortExit (c ∷ (old ++ new))
    → search_done log_id 0 bol (c ∷ old) ≡ none
    → search_done log_id 0 bol (c ∷ (old ++ new)) ≡ search_done log_id 0 (c == 10) (old ++ new)
resume_step log_id true c old new id_fits long short h = search_step log_id true c (old ++ new) (
    done_at-extend log_id (c ∷ old) new id_fits (omega arith) short
      (search_none_here log_id c old h))
resume_step log_id false c old new id_fits long short h = unfold search_done in refl

resume :
    (log_id : Text) (bol : Bool) (old new : Text)
    → length log_id ≤ 26
    → ShortExits (old ++ new)
    → search_done log_id 0 bol old ≡ none
    → search_done log_id (length old - overlap) bol (old ++ new)
      ≡ search_done log_id 0 bol (old ++ new)
resume log_id bol [] new id_fits short h = refl
resume log_id bol (c ∷ old) new id_fits short h = elim (Bool-cases (leb overlap (length old))) [
  | inr few ↦ rw (zero_of few)
  | inl many ↦ rw (suc_of many) (
      search_skip log_id (length old - overlap) bol c (old ++ new)
      ∙ resume log_id (c == 10) old new id_fits short.1 (search_none_tail log_id bol c old h)
      ∙ sym (resume_step log_id bol c old new id_fits (leb→le overlap (length old) many) short.0 h))
]
  where
    zero_of : leb overlap (length old) ≡ false → suc (length old) - overlap ≡ 0
    zero_of few = omega (arith, leb_false→lt overlap (length old) few)

    suc_of :
        leb overlap (length old) ≡ true → suc (length old) - overlap ≡ suc (length old - overlap)
    suc_of many = omega (arith, leb→le overlap (length old) many)

-- A log that held no DONE marker before goes on: the scan that starts 64 characters before its old
-- end finds the same marker as a scan of the whole log, or none if there is none. The log id has at
-- most 26 characters, as a ULID has, and no marker prefix is followed by more than 22 digits.
pub search_done-resume :
    (log_id old new : Text)
    → length log_id ≤ 26
    → ShortExits (old ++ new)
    → search_done log_id 0 true old ≡ none
    → search_done log_id (length old - overlap) true (old ++ new)
      ≡ search_done log_id 0 true (old ++ new)
search_done-resume log_id old new = resume log_id true old new
