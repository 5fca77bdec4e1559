-- ===== src/Str/Chars.antt =====
-- Characters and `str` methods of Python as the program uses them: white space, decimal digits,
-- `strip`, `rstrip`, `lstrip`, `partition`, `split` on a character, and `int`.
use tai_mcp_ssh.Prelude.{
  ℕ, zero, suc, ◌+◌, ◌-◌, ◌*◌, Bool, true, false, ◌&&◌, ◌||◌, Option, none, some, List, [], ◌∷◌,
  ◌++◌, ◌≡◌, refl, arith, ltb, leb, ◌==◌, if◌then◌else◌, Text, any, All, strip_prefix, is_some, ◌%◌,
  ◌/◌, codes,
}
use tai_mcp_ssh.Prelude.Int.{ℤ, pos, negsuc}

-- `str.isspace`, and `\s` of a pattern
unfoldable pub is_space : ℕ → Bool
is_space c =
    (leb 9 c && leb c 13)
    || (leb 28 c && leb c 32)
    || c == 133
    || c == 160
    || c == 0x1680
    || (leb 0x2000 c && leb c 0x200a)
    || c == 0x2028
    || c == 0x2029
    || c == 0x202f
    || c == 0x205f
    || c == 0x3000

-- The zeros of the decimal digits of Unicode 14 beyond ASCII; each starts a run of ten.
abbrev digit_zeros : List ℕ
digit_zeros =
    0x660 ∷ 0x6f0 ∷ 0x7c0 ∷ 0x966 ∷ 0x9e6 ∷ 0xa66 ∷ 0xae6 ∷ 0xb66 ∷ 0xbe6 ∷ 0xc66 ∷ 0xce6 ∷ 0xd66
    ∷ 0xde6 ∷ 0xe50 ∷ 0xed0 ∷ 0xf20 ∷ 0x1040 ∷ 0x1090 ∷ 0x17e0 ∷ 0x1810 ∷ 0x1946 ∷ 0x19d0 ∷ 0x1a80
    ∷ 0x1a90 ∷ 0x1b50 ∷ 0x1bb0 ∷ 0x1c40 ∷ 0x1c50 ∷ 0xa620 ∷ 0xa8d0 ∷ 0xa900 ∷ 0xa9d0 ∷ 0xa9f0
    ∷ 0xaa50 ∷ 0xabf0 ∷ 0xff10 ∷ 0x104a0 ∷ 0x10d30 ∷ 0x11066 ∷ 0x110f0 ∷ 0x11136 ∷ 0x111d0 ∷ 0x112f0
    ∷ 0x11450 ∷ 0x114d0 ∷ 0x11650 ∷ 0x116c0 ∷ 0x11730 ∷ 0x118e0 ∷ 0x11950 ∷ 0x11c50 ∷ 0x11d50
    ∷ 0x11da0 ∷ 0x16a60 ∷ 0x16ac0 ∷ 0x16b50 ∷ 0x1d7ce ∷ 0x1d7d8 ∷ 0x1d7e2 ∷ 0x1d7ec ∷ 0x1d7f6
    ∷ 0x1e140 ∷ 0x1e2f0 ∷ 0x1e950 ∷ 0x1fbf0 ∷ []

digit_in : List ℕ → ℕ → Option ℕ
digit_in [] c = none
digit_in (z ∷ zs) c = if leb z c && ltb c (z + 10) then some (c - z) else digit_in zs c

-- `\d` of a pattern, with the value that `int` gives it
unfoldable pub digit_value : ℕ → Option ℕ
unfolding digit_in
digit_value c =
    if ltb c 128
    then (if leb b'0' c && leb c b'9' then some (c - b'0') else none)
    else digit_in digit_zeros c

unfoldable pub skip_while : (ℕ → Bool) → Text → Text
skip_while p [] = []
skip_while p (c ∷ s) = if p c then skip_while p s else c ∷ s

-- `s.lstrip(chars)`, `s.rstrip(chars)` and `s.strip()`, the characters given by a test
unfoldable pub lstrip : (ℕ → Bool) → Text → Text
lstrip p s = skip_while p s

trim_end : (ℕ → Bool) → ℕ → Text → Text
trim_end p c [] = if p c then [] else c ∷ []
trim_end p c (d ∷ r) = c ∷ d ∷ r

unfoldable pub rstrip : (ℕ → Bool) → Text → Text
unfolding trim_end
rstrip p [] = []
rstrip p (c ∷ s) = trim_end p c (rstrip p s)

pub rstrip_none : (p : ℕ → Bool) (s : Text) → All (λ c. p c ≡ false) s → rstrip p s ≡ s
unfolding rstrip
rstrip_none p [] h = refl
rstrip_none p (c ∷ []) h = ground (arith, h.0)
rstrip_none p (c ∷ d ∷ s) h = rw (rstrip_none p (d ∷ s) h.1)

unfoldable pub strip : Text → Text
unfolding lstrip rstrip is_space skip_while
strip s = rstrip is_space (lstrip is_space s)

-- `s.partition(sep)[0]`, `s.partition(sep)[2]` and `sep in s`, for a separator of one character
unfoldable pub before : ℕ → Text → Text
before sep [] = []
before sep (c ∷ s) = if c == sep then [] else c ∷ before sep s

unfoldable pub after : ℕ → Text → Text
after sep [] = []
after sep (c ∷ s) = if c == sep then s else after sep s

unfoldable pub contains : ℕ → Text → Bool
contains sep s = any (λ c. c == sep) s

-- The text is what stands before the separator, the separator, and what stands after it.
pub before-after :
    (sep : ℕ) (s : Text) → contains sep s ≡ true → s ≡ before sep s ++ sep ∷ after sep s
unfolding before after contains
before-after sep [] h = cc
before-after sep (c ∷ s) h = ground (arith, before-after sep s)

pub contains-before : (sep : ℕ) (s : Text) → contains sep (before sep s) ≡ false
unfolding before contains
contains-before sep [] = refl
contains-before sep (c ∷ s) = ground (arith, contains-before sep s)

pub before-append : (sep : ℕ) (s t : Text) → contains sep s ≡ false → before sep (s ++ sep ∷ t) ≡ s
unfolding before contains
before-append sep [] t h = ground arith
before-append sep (c ∷ s) t h = ground (arith, before-append sep s t)

pub after-append : (sep : ℕ) (s t : Text) → contains sep s ≡ false → after sep (s ++ sep ∷ t) ≡ t
unfolding after contains
after-append sep [] t h = ground arith
after-append sep (c ∷ s) t h = ground (arith, after-append sep s t)

pub contains-append_sep : (sep : ℕ) (s t : Text) → contains sep (s ++ sep ∷ t) ≡ true
unfolding contains
contains-append_sep sep [] t = ground arith
contains-append_sep sep (c ∷ s) t = ground (arith, contains-append_sep sep s t)

cons_first : ℕ → List Text → List Text
cons_first c [] = (c ∷ []) ∷ []
cons_first c (l ∷ ls) = (c ∷ l) ∷ ls

-- `s.split(sep)` for a separator of one character
unfoldable pub split : ℕ → Text → List Text
unfolding cons_first
split sep [] = [] ∷ []
split sep (c ∷ s) = let rest = split sep s in if c == sep then [] ∷ rest else cons_first c rest

-- `sep.join(parts)`
unfoldable pub join : Text → List Text → Text
join sep [] = []
join sep (p ∷ []) = p
join sep (p ∷ q ∷ ps) = p ++ (sep ++ join sep (q ∷ ps))

-- The digits of `int(s)`: underscores may stand between two digits.
int_digits : ℕ → Bool → Text → Option ℕ
int_digits n after_digit [] = if after_digit then some n else none
int_digits n after_digit (c ∷ s) = elim (digit_value c) [
  | some d ↦ int_digits (n * 10 + d) true s
  | none ↦ elim (after_digit && c == b'_') [ true ↦ int_digits n false s | false ↦ none ]
]

int_sign : Text → Option ℤ
int_sign [] = none
int_sign (c ∷ s) =
    if c == b'-'
    then elim (int_digits 0 false s) [
      | none ↦ none
      | some zero ↦ some (pos 0)
      | some (suc n) ↦ some (negsuc n)
    ]
    else elim (int_digits 0 false (if c == b'+' then s else c ∷ s)) [
      | none ↦ none
      | some n ↦ some (pos n)
    ]

-- `int(s)`; `none` is `ValueError`
unfoldable pub int : Text → Option ℤ
unfolding int_sign int_digits digit_value strip
int s = int_sign (strip s)

-- `part in s`
unfoldable pub is_part : Text → Text → Bool
is_part part [] = is_some (strip_prefix part [])
is_part part (c ∷ s) = is_some (strip_prefix part (c ∷ s)) || is_part part s

last_digit : ℕ → ℕ
last_digit n = b'0' + n % 10

-- The digits of `n` in front of `out`; a number has fewer digits than its successor counts.
digits : ℕ → ℕ → Text → Text
unfolding last_digit
digits zero n out = out
digits (suc fuel) n out = elim (ltb n 10) [
  | true ↦ last_digit n ∷ out
  | false ↦ digits fuel (n / 10) (last_digit n ∷ out)
]

-- `str(n)`
unfoldable pub decimal : ℕ → Text
unfolding digits
decimal n = digits (suc n) n []

unfoldable pub decimal_int : ℤ → Text
unfolding decimal
decimal_int (pos n) = decimal n
decimal_int (negsuc n) = b'-' ∷ decimal (suc n)

decimal_runs : decimal 40960 ≡ codes "40960"
unfolding decimal
decimal_runs = refl
