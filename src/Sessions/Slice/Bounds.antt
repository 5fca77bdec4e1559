-- ===== src/Sessions/Slice/Bounds.antt =====
-- The sizes of the slices, and when the output is whole.
use tai_mcp_ssh.Prelude.{
  ℕ, ◌≤◌, true, false, List, [], ◌++◌, ◌≡◌, refl, sym, ap, ◌∙◌, arith, Text, length, take,
  take_last, drop, length-take, length-take_last, take-append-drop, le→leb, Bool-cases, inl, inr,
  append_assoc, flatten, flatten-append,
}
use tai_mcp_ssh.Str.Lines.{splitlines, flatten-splitlines}
use tai_mcp_ssh.Sessions.Slice.{
  Slice, slice_output, fits, head_slice, tail_slice, full_threshold_lines, full_threshold_bytes,
  head_max_bytes, head_max_lines, tail_max_bytes, tail_max_lines,
}

abbrev pub Fits : Text → Type 0
Fits output =
    (length (splitlines true output) ≤ full_threshold_lines)
    × (length output ≤ full_threshold_bytes)

fits_sound : (output : Text) → fits output ≡ true → Fits output
unfolding fits
fits_sound output h = ground arith

fits_complete : (output : Text) → Fits output → fits output ≡ true
unfolding fits
fits_complete output h = ground (
  arith,
  le→leb (length (splitlines true output)) full_threshold_lines,
  le→leb (length output) full_threshold_bytes,
)

-- Output of at most 50 lines and 4096 characters comes back whole, with no tail, and no other
-- output is free of the truncation mark.
pub slice_output-Fits :
    (output : Text)
    → ((slice_output output).truncated ≡ false → Fits output)
      × (Fits output → slice_output output ≡ record { head = output; tail = []; truncated = false })
unfolding slice_output
slice_output-Fits output = elim (Bool-cases (fits output)) [
  | inl e ↦ (λ _. fits_sound output e, λ _. rw e)
  | inr e ↦ rw e (λ h. cc, λ h. cc (e, fits_complete output h))
]

pub head_slice_bound : (lines : List Text) → length (head_slice lines) ≤ head_max_bytes
unfolding head_slice
head_slice_bound lines =
    omega (arith, length-take head_max_bytes (flatten (take head_max_lines lines)))

pub tail_slice_bound : (lines : List Text) → length (tail_slice lines) ≤ tail_max_bytes
unfolding tail_slice
tail_slice_bound lines = length-take_last tail_max_bytes (flatten (take_last tail_max_lines lines))

-- a prefix of the text of the first lines, and what the text goes on with
head_prefix :
    (n k : ℕ) (lines : List Text)
    → take n (flatten (take k lines)) ++ (drop n (flatten (take k lines)) ++ flatten (drop k lines))
      ≡ flatten lines
head_prefix n k lines =
    sym (append_assoc (take n (flatten (take k lines))) _ _)
    ∙ ap (λ t. t ++ flatten (drop k lines)) (take-append-drop n (flatten (take k lines)))
    ∙ sym (flatten-append (take k lines) (drop k lines))
    ∙ ap flatten (take-append-drop k lines)

tail_suffix :
    (n k : ℕ) (lines : List Text)
    → (flatten (take k lines) ++ take n (flatten (drop k lines))) ++ drop n (flatten (drop k lines))
      ≡ flatten lines
tail_suffix n k lines =
    append_assoc (flatten (take k lines)) _ _
    ∙ ap (λ t. flatten (take k lines) ++ t) (take-append-drop n (flatten (drop k lines)))
    ∙ sym (flatten-append (take k lines) (drop k lines))
    ∙ ap flatten (take-append-drop k lines)

-- What a slice is of its output.
pub record IsCut (output : Text) (s : Slice) : Type 0 where
  pub head_fits : length s.head ≤ head_max_bytes
  pub tail_fits : length s.tail ≤ tail_max_bytes
  pub head_first : (rest : Text) × (s.head ++ rest ≡ output)
  pub tail_last : (before : Text) × (before ++ s.tail ≡ output)

IsCut-of_lines :
    (output : Text)
    → IsCut output (record {
      head = head_slice (splitlines true output);
      tail = tail_slice (splitlines true output);
      truncated = true;
    })
unfolding head_slice tail_slice
IsCut-of_lines output = record {
  head_fits = head_slice_bound (splitlines true output);
  tail_fits = tail_slice_bound (splitlines true output);
  head_first = (
    _,
    head_prefix head_max_bytes head_max_lines (splitlines true output) ∙ flatten-splitlines output,
  );
  tail_last = (_, tail_suffix _ _ (splitlines true output) ∙ flatten-splitlines output);
}

-- Output of more than 50 lines or 4096 characters is marked as truncated; its head is a prefix and its tail a suffix of the output,
-- each of at most 2048 characters.
pub slice_output-IsCut :
    (output : Text)
    → ¬ Fits output
    → ((slice_output output).truncated ≡ true) × IsCut output (slice_output output)
unfolding slice_output
slice_output-IsCut output h = elim (Bool-cases (fits output)) [
  | inl e ↦ absurd (h (fits_sound output e))
  | inr e ↦ rw e (refl, IsCut-of_lines output)
]
