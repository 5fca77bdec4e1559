-- ===== src/Str/Lines.antt =====
-- `str.splitlines`.
use tai_mcp_ssh.Prelude.{
  ℕ, Bool, true, false, not, ◌&&◌, ◌||◌, List, [], ◌∷◌, ◌++◌, ◌≡◌, refl, ap, ◌∙◌, arith, leb, ◌==◌,
  if◌then◌else◌, Text, append_assoc, All,
}
use mathlib.Core.List.{flatten}

-- the characters at which `splitlines` ends a line
unfoldable pub is_break : ℕ → Bool
is_break c =
    (leb 10 c && leb c 13) || (leb 28 c && leb c 30) || c == 133 || c == 0x2028 || c == 0x2029

-- a carriage return before a line feed does not end the line yet
joins : ℕ → Text → Bool
joins c [] = false
joins c (d ∷ s) = c == 13 && d == 10

cons_line : ℕ → List Text → List Text
cons_line c [] = (c ∷ []) ∷ []
cons_line c (l ∷ ls) = (c ∷ l) ∷ ls

-- `s.splitlines(keepends)`
unfoldable pub splitlines : Bool → Text → List Text
unfolding is_break joins cons_line
splitlines keepends [] = []
splitlines keepends (c ∷ s) =
    let rest = splitlines keepends s in
    if is_break c
    then (if joins c s
        then (if keepends then cons_line c rest else rest)
        else (if keepends then c ∷ [] else []) ∷ rest)
    else cons_line c rest

flatten-cons_line : (c : ℕ) (ls : List Text) → flatten (cons_line c ls) ≡ c ∷ flatten ls
unfolding cons_line flatten
flatten-cons_line c [] = refl
flatten-cons_line c (l ∷ ls) = refl

-- With the ends kept, the lines put together are the text.
pub flatten-splitlines : (s : Text) → flatten (splitlines true s) ≡ s
unfolding splitlines flatten
flatten-splitlines [] = refl
flatten-splitlines (c ∷ s) =
    ground (arith, flatten-splitlines s, flatten-cons_line c (splitlines true s))

abbrev pub IsLine : Text → Type 0
IsLine = All (λ c. is_break c ≡ false)

-- lines put together, each with a line feed behind it
unfoldable pub unlines : List Text → Text
unlines [] = []
unlines (l ∷ ls) = l ++ 10 ∷ unlines ls

splitlines-char :
    (c : ℕ) (t : Text)
    → is_break c ≡ false
    → splitlines false (c ∷ t) ≡ cons_line c (splitlines false t)
unfolding splitlines
splitlines-char c t h = rw h

splitlines-line_feed : (t : Text) → splitlines false (10 ∷ t) ≡ [] ∷ splitlines false t
unfolding splitlines
splitlines-line_feed [] = refl
splitlines-line_feed (d ∷ t) = refl

-- A text without a line break, and a line feed behind it, is the first line.
pub splitlines-append :
    (l t : Text) → IsLine l → splitlines false (l ++ 10 ∷ t) ≡ l ∷ splitlines false t
unfolding cons_line
splitlines-append [] t h = splitlines-line_feed t
splitlines-append (c ∷ l) t h =
    splitlines-char c (l ++ 10 ∷ t) h.0 ∙ ap (cons_line c) (splitlines-append l t h.1)

pub splitlines-unlines :
    (ls : List Text) (t : Text)
    → All IsLine ls
    → splitlines false (unlines ls ++ t) ≡ ls ++ splitlines false t
unfolding unlines
splitlines-unlines [] t h = refl
splitlines-unlines (l ∷ ls) t h =
    rw (append_assoc, splitlines-append l (unlines ls ++ t) h.0, splitlines-unlines ls t h.1)

-- the same as a test, for literals
unfoldable pub no_break : Text → Bool
unfolding is_break
no_break [] = true
no_break (c ∷ s) = not (is_break c) && no_break s

pub no_break_sound : (s : Text) → no_break s ≡ true → IsLine s
unfolding no_break
no_break_sound [] h = tt
no_break_sound (c ∷ s) h = (ground arith, no_break_sound s (ground arith))
