-- ===== src/Audit/Redact/Hides.antt =====
-- What `_redact_command` of audit.py makes of a password, wherever it stands.
use tai_mcp_ssh.Prelude.{
  ℕ, zero, suc, ◌≤◌, ◌==◌, ◌||◌, true, false, Option, none, some, [], ◌∷◌, ◌++◌, Text, codes,
  strip_prefix, length, ◌≡◌, refl, ap, ◌∙◌, sym, arith, Bool-cases, inl, inr, ◌⊎◌,
}
use tai_mcp_ssh.Str.Chars.{is_space}
use tai_mcp_ssh.Audit.Redact.{
  redacted, after_word, word_end, with_group, password_value, password_after, match_password,
  match_reference, sub, redact_command,
}
use tai_mcp_ssh.Audit.Redact.Scan.{
  is_word, is_break, is_word-no_space, after_word-append, match_password-append,
  match_password-Shrinks, sub-match, sub-miss,
}

abbrev flag : Text
flag = codes "--password="

-- a text that ends in the flag, and what follows the flag
abbrev flagged : Text → Text → Text
flagged pre rest = pre ++ (flag ++ rest)

-- that the flag does not begin inside the text
abbrev NoOverlap : Text → Type 0
NoOverlap [] = Unit
NoOverlap (c ∷ f) = ((rest : Text) → strip_prefix (c ∷ f) (flag ++ rest) ≡ none) × NoOverlap f

no_overlap : NoOverlap (codes "-password")
unfolding strip_prefix
no_overlap = (
  λ r. refl,
  (
    λ r. refl,
    (λ r. refl, (λ r. refl, (λ r. refl, (λ r. refl, (λ r. refl, (λ r. refl, (λ r. refl, tt))))))),
  ),
)

-- A prefix is not there, or it is there before the flag, whatever follows the flag.
abbrev Stripped : Text → Text → Type 0
Stripped f pre =
    ((rest : Text) → strip_prefix f (flagged pre rest) ≡ none)
    ⊎ ((pre' : Text) × (length pre' ≤ length pre)
        × ((rest : Text) → strip_prefix f (flagged pre rest) ≡ some (flagged pre' rest)))

strip_prefix-flagged : (f pre : Text) → NoOverlap f → Stripped f pre
unfolding strip_prefix
strip_prefix-flagged [] pre h = inr (pre, omega arith, λ rest. refl)
strip_prefix-flagged (c ∷ f) [] h = inl h.0
strip_prefix-flagged (c ∷ f) (d ∷ pre) h = elim (Bool-cases (c == d)) [
  | inl e ↦ elim (strip_prefix-flagged f pre h.1) [
    | inl missing ↦ inl (λ rest. rw e (missing rest))
    | inr (pre', less, found) ↦ inr (pre', omega (arith, less), λ rest. rw e (found rest))
  ]
  | inr e ↦ inl (λ rest. rw e refl)
]

dash_solid : is_space b'-' ≡ false
unfolding is_space
dash_solid = refl

-- `\S+` finds nothing, or takes what `\S*` takes
word_end-cases :
    (pre : Text)
    → ((rest : Text) → word_end (flagged pre rest) ≡ none)
      ⊎ ((rest : Text) → word_end (flagged pre rest) ≡ some (after_word (flagged pre rest)))
unfolding word_end after_word
word_end-cases [] = inr (λ rest. rw dash_solid refl)
word_end-cases (c ∷ pre) = elim (Bool-cases (is_space c)) [
  | inl e ↦ inl (λ rest. rw e refl)
  | inr e ↦ inr (λ rest. rw e refl)
]

module _ (post : Text) (b : is_break post ≡ true) where
  -- what is left after the word at the front: a text with the flag, or what follows the password
  abbrev Left : (Text → Text) → Text → Type 0
  Left f pre =
      ((pre' : Text) × (length pre' ≤ length pre) × ((rest : Text) → f rest ≡ flagged pre' rest))
      ⊎ ((v : Text) → is_word v ≡ true → f (v ++ post) ≡ post)

  after_word-flagged : (pre : Text) → Left (λ rest. after_word (flagged pre rest)) pre
  unfolding after_word is_space
  after_word-flagged [] = inr (λ v h. after_word-append (flag ++ v) post (is_word-no_space v h) b)
  after_word-flagged (c ∷ pre) = elim (Bool-cases (is_space c)) [
    | inl e ↦ inl (c ∷ pre, omega arith, λ rest. rw e refl)
    | inr e ↦ elim (after_word-flagged pre) [
      | inl (pre', less, left) ↦ inl (pre', omega (arith, less), λ rest. rw e (left rest))
      | inr left ↦ inr (λ v h. rw e (left v h))
    ]
  ]

  -- what a search finds at the front of a text with the flag, if it leaves no more than `n` characters
  -- before the flag
  data Outcome (find : Text → Option (Text × Text)) (n : ℕ) (pre : Text) : Type 0 where
    misses : ((rest : Text) → find (flagged pre rest) ≡ none) → Outcome find n pre
    stops :
        (group pre' : Text)
        → length pre' ≤ n
        → ((rest : Text) → find (flagged pre rest) ≡ some (group, flagged pre' rest))
        → Outcome find n pre
    swallows :
        (group : Text)
        → ((v : Text) → is_word v ≡ true → find (flagged pre (v ++ post)) ≡ some (group, post))
        → Outcome find n pre

  word_end-flagged :
      (group : Text) (n : ℕ) (pre : Text)
      → length pre ≤ n
      → Outcome (λ s. with_group group (word_end s)) n pre
  unfolding with_group
  word_end-flagged group n pre l = elim (word_end-cases pre) [
    | inl missing ↦ misses (λ rest. ap (with_group group) (missing rest))
    | inr found ↦ elim (after_word-flagged pre) [
      | inl (pre', less, left) ↦
          stops group pre' (omega (arith, l, less))
            (λ rest. ap (with_group group) (found rest ∙ ap some (left rest)))
      | inr left ↦
          swallows group (λ v h. ap (with_group group) (found (v ++ post) ∙ ap some (left v h)))
    ]
  ]

  Outcome-same :
      (find find' : Text → Option (Text × Text)) (n : ℕ) (pre pre' : Text)
      → ((rest : Text) → find (flagged pre rest) ≡ find' (flagged pre' rest))
      → Outcome find' n pre'
      → Outcome find n pre
  Outcome-same find find' n pre pre' same (misses missing) =
      misses (λ rest. same rest ∙ missing rest)
  Outcome-same find find' n pre pre' same (stops group left less found) =
      stops group left less (λ rest. same rest ∙ found rest)
  Outcome-same find find' n pre pre' same (swallows group found) =
      swallows group (λ v h. same (v ++ post) ∙ found v h)

  password_value-flagged : (n : ℕ) (pre : Text) → length pre ≤ n → Outcome password_value n pre
  unfolding password_value
  password_value-flagged n [] l = misses (λ rest. rw dash_solid refl)
  password_value-flagged n (c ∷ pre) l = elim (Bool-cases ((c == b'=') || is_space c)) [
    | inl e ↦
        Outcome-same password_value _ n (c ∷ pre) pre (λ rest. rw e refl)
          (word_end-flagged (codes "--password" ++ c ∷ []) n pre (omega (arith, l)))
    | inr e ↦ misses (λ rest. rw e refl)
  ]

  match_password-flagged : (c : ℕ) (pre : Text) → Outcome match_password (length pre) (c ∷ pre)
  unfolding match_password password_after strip_prefix
  match_password-flagged c pre = elim (Bool-cases (b'-' == c)) [
    | inl e ↦ elim (strip_prefix-flagged (codes "-password") pre no_overlap) [
      | inl missing ↦ misses (λ rest. rw e (ap password_after (missing rest)))
      | inr (pre', less, found) ↦
          Outcome-same match_password _ (length pre) (c ∷ pre) pre'
            (λ rest. rw e (ap password_after (found rest)))
            (password_value-flagged (length pre) pre' less)
    ]
    | inr e ↦ misses (λ rest. rw e refl)
  ]

  sub-flagged :
      (n : ℕ) (pre v w : Text)
      → length pre ≤ n
      → is_word v ≡ true
      → is_word w ≡ true
      → sub match_password (flagged pre (v ++ post)) ≡ sub match_password (flagged pre (w ++ post))
  sub-flagged n [] v w l hv hw =
      sub-match match_password match_password-Shrinks _ _ post (match_password-append v post hv b)
      ∙ sym (
          sub-match match_password match_password-Shrinks _ _ post
            (match_password-append w post hw b))
  sub-flagged zero (c ∷ pre) v w l hv hw = absurd (omega (arith, l))
  sub-flagged (suc n) (c ∷ pre) v w l hv hw = elim (match_password-flagged c pre) [
    | misses missing ↦
        sub-miss match_password match_password-Shrinks c _ (missing (v ++ post))
        ∙ ap (λ t. c ∷ t) (sub-flagged n pre v w (omega (arith, l)) hv hw)
        ∙ sym (sub-miss match_password match_password-Shrinks c _ (missing (w ++ post)))
    | stops group pre' less found ↦
        sub-match match_password match_password-Shrinks _ _ _ (found (v ++ post))
        ∙ ap (λ t. group ++ (redacted ++ t)) (sub-flagged n pre' v w (omega (arith, l, less)) hv hw)
        ∙ sym (sub-match match_password match_password-Shrinks _ _ _ (found (w ++ post)))
    | swallows group found ↦
        sub-match match_password match_password-Shrinks _ _ _ (found v hv)
        ∙ sym (sub-match match_password match_password-Shrinks _ _ _ (found w hw))
  ]

-- Wherever `--password=` stands in a command, with a password after it (characters that are not
-- spaces, up to a space or the end), the text that is recorded is the same for any other password.
pub redact_command-hides :
    (pre v w post : Text)
    → is_word v ≡ true
    → is_word w ≡ true
    → is_break post ≡ true
    → redact_command (pre ++ (codes "--password=" ++ (v ++ post)))
      ≡ redact_command (pre ++ (codes "--password=" ++ (w ++ post)))
unfolding redact_command
redact_command-hides pre v w post hv hw b =
    ap (sub match_reference) (sub-flagged post b (length pre) pre v w (omega arith) hv hw)
