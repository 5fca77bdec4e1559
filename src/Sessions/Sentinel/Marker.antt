-- ===== src/Sessions/Sentinel/Marker.antt =====
-- The DONE marker as the remote shell prints it, read by `_done_re` of sessions.py.
use tai_mcp_ssh.Prelude.{
  ℕ, ◌+◌, ◌-◌, ◌*◌, ◌≤◌, none, some, [], ◌∷◌, ◌++◌, ◌≡◌, refl, ◌∙◌, ap, arith, if◌then◌else◌, Text,
  All, strip_prefix-append, append_assoc,
}
use mathlib.Core.List.{foldl}
use tai_mcp_ssh.Str.Chars.{digit_value}
use tai_mcp_ssh.Sessions.Sentinel.{
  done_prefix, done_suffix, done_at, read_exit, more_digits, blank_to_eol, suffix_at, exit_at,
}

-- A decimal digit as `printf` writes it.
abbrev pub IsDigit : ℕ → Type 0
IsDigit c = (b'0' ≤ c) × (c ≤ b'9')

-- the number that digits spell behind `n`
abbrev pub value : ℕ → Text → ℕ
value = foldl (λ n c. n * 10 + (c - b'0'))

digit_of_IsDigit : (c : ℕ) → IsDigit c → digit_value c ≡ some (c - b'0')
unfolding digit_value
digit_of_IsDigit c h = ground arith

underscore_no_digit : digit_value b'_' ≡ none
unfolding digit_value
underscore_no_digit = refl

pub more_digits_stop :
    (n c : ℕ) (s : Text) → digit_value c ≡ none → more_digits n (c ∷ s) ≡ (n, c ∷ s)
unfolding more_digits
more_digits_stop n c s h = ground (arith, h)

pub more_digits_step :
    (n c d : ℕ) (s : Text)
    → digit_value c ≡ some d
    → more_digits n (c ∷ s) ≡ more_digits (n * 10 + d) s
unfolding more_digits
more_digits_step n c d s h = ground (arith, h)

more_digits-append :
    (n : ℕ) (ds r : Text) → All IsDigit ds → more_digits n (ds ++ b'_' ∷ r) ≡ (value n ds, b'_' ∷ r)
more_digits-append n [] r h = more_digits_stop n b'_' r underscore_no_digit
more_digits-append n (d ∷ ds) r h =
    more_digits_step n d (d - b'0') (ds ++ b'_' ∷ r) (digit_of_IsDigit d h.0)
    ∙ more_digits-append (n * 10 + (d - b'0')) ds r h.1

pub read_exit_step :
    (c d : ℕ) (s : Text) → digit_value c ≡ some d → read_exit (c ∷ s) ≡ some (more_digits d s)
unfolding read_exit
read_exit_step c d s h = ground (arith, h)

read_exit-append :
    (d : ℕ) (ds r : Text)
    → All IsDigit (d ∷ ds)
    → read_exit (d ∷ (ds ++ b'_' ∷ r)) ≡ some (value 0 (d ∷ ds), b'_' ∷ r)
read_exit-append d ds r h =
    read_exit_step d (d - b'0') (ds ++ b'_' ∷ r) (digit_of_IsDigit d h.0)
    ∙ ap some (more_digits-append (d - b'0') ds r h.1)
    ∙ ap (λ n. some (value n ds, b'_' ∷ r)) first
  where
    first : d - b'0' ≡ 0 * 10 + (d - b'0')
    first = omega arith

-- `__TAI_DONE__<digits>__<log_id>__`
abbrev pub done_marker : Text → Text → Text
done_marker log_id ds = done_prefix ++ (ds ++ done_suffix log_id)

pub suffix_at-append :
    (log_id : Text) (n : ℕ) (rest : Text)
    → suffix_at log_id (n, done_suffix log_id ++ rest)
      ≡ (if blank_to_eol rest then some n else none)
unfolding suffix_at
suffix_at-append log_id n rest = rw (strip_prefix-append (done_suffix log_id) rest, suffix_at)

pub exit_at_step :
    (log_id s : Text) {r : ℕ × Text}
    → read_exit s ≡ some r
    → exit_at log_id (some s) ≡ suffix_at log_id r
unfolding exit_at
exit_at_step log_id s h = ground (arith, h)

done_at-append :
    (log_id : Text) (d : ℕ) (ds rest : Text)
    → All IsDigit (d ∷ ds)
    → done_at log_id (done_prefix ++ (d ∷ (ds ++ (done_suffix log_id ++ rest))))
      ≡ (if blank_to_eol rest then some (value 0 (d ∷ ds)) else none)
unfolding done_at
done_at-append log_id d ds rest h = rw strip_prefix-append (
    exit_at_step log_id (d ∷ (ds ++ (done_suffix log_id ++ rest)))
      (unfold done_suffix in read_exit-append d ds _ h)
    ∙ suffix_at-append log_id (value 0 (d ∷ ds)) rest)

-- A printed marker with nothing but blanks behind it on its line is recognised, and the number
-- read from it is the one that was printed; with anything else behind it, it is not.
pub done_at-marker :
    (log_id : Text) (d : ℕ) (ds rest : Text)
    → All IsDigit (d ∷ ds)
    → done_at log_id (done_marker log_id (d ∷ ds) ++ rest)
      ≡ (if blank_to_eol rest then some (value 0 (d ∷ ds)) else none)
done_at-marker log_id d ds rest h =
    ap (done_at log_id) (regroup done_prefix (d ∷ ds) (done_suffix log_id) rest)
    ∙ done_at-append log_id d ds rest h
  where
    regroup : (a b c e : Text) → (a ++ (b ++ c)) ++ e ≡ a ++ (b ++ (c ++ e))
    regroup a b c e = simp append_assoc
