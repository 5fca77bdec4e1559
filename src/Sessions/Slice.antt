-- ===== src/Sessions/Slice.antt =====
-- `_slice_output` of sessions.py, with its thresholds.
pub mod Bounds
use tai_mcp_ssh.Prelude.{
  ℕ, ◌+◌, ◌≤◌, Bool, true, false, not, ◌&&◌, List, [], ◌∷◌, ◌++◌, ◌≡◌, refl, arith, leb,
  if◌then◌else◌, Text, length, take, take_last,
}
use mathlib.Core.List.{flatten}
use tai_mcp_ssh.Str.Lines.{splitlines}

abbrev pub full_threshold_lines : ℕ
full_threshold_lines = 50

abbrev pub full_threshold_bytes : ℕ
full_threshold_bytes = 4096

abbrev pub head_max_lines : ℕ
head_max_lines = 50

abbrev pub head_max_bytes : ℕ
head_max_bytes = 2048

abbrev pub tail_max_lines : ℕ
tail_max_lines = 50

abbrev pub tail_max_bytes : ℕ
tail_max_bytes = 2048

pub record Slice : Type 0 where
  pub head : Text
  pub tail : Text
  pub truncated : Bool

unfoldable pub fits : Text → Bool
fits output =
    leb (length (splitlines true output)) full_threshold_lines
    && leb (length output) full_threshold_bytes

unfoldable pub head_slice : List Text → Text
head_slice lines = take head_max_bytes (flatten (take head_max_lines lines))

unfoldable pub tail_slice : List Text → Text
tail_slice lines = take_last tail_max_bytes (flatten (take_last tail_max_lines lines))

unfoldable pub slice_output : Text → Slice
slice_output output =
    if fits output then record { head = output; tail = []; truncated = false } else record {
      head = head_slice (splitlines true output);
      tail = tail_slice (splitlines true output);
      truncated = true;
    }
