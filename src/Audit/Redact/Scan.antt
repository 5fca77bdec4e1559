-- ===== src/Audit/Redact/Scan.antt =====
-- How the first pattern of `_redact_command` of audit.py is searched for.
use tai_mcp_ssh.Prelude.{
  ℕ, zero, suc, ◌≤◌, ◌<◌, Bool, true, false, Option, none, some, [], ◌∷◌, ◌++◌, if◌then◌else◌, Text,
  codes, strip_prefix, length, ◌≡◌, refl, ap, sym, arith, Option-cases, inl, inr,
  strip_prefix_sound,
}
use tai_mcp_ssh.Str.Chars.{is_space}
use tai_mcp_ssh.Audit.Redact.{
  redacted, after_word, word_end, with_group, password_value, password_after, match_password,
  replace, sub_from, sub,
}

-- the texts that `\S+` takes whole: not empty and without spaces
abbrev pub no_space : Text → Bool
no_space [] = true
no_space (c ∷ s) = if is_space c then false else no_space s

abbrev pub is_word : Text → Bool
is_word [] = false
is_word (c ∷ s) = no_space (c ∷ s)

-- what may follow a word: nothing, or a space first
abbrev pub is_break : Text → Bool
is_break [] = true
is_break (c ∷ s) = is_space c

pub is_word-no_space : (v : Text) → is_word v ≡ true → no_space v ≡ true
is_word-no_space [] h = refl
is_word-no_space (c ∷ v) h = h

pub after_word-append :
    (v post : Text) → no_space v ≡ true → is_break post ≡ true → after_word (v ++ post) ≡ post
unfolding after_word
after_word-append [] [] h b = refl
after_word-append [] (c ∷ s) h b = rw b refl
after_word-append (c ∷ v) post h b = ground (arith, after_word-append v post)

pub word_end-append :
    (v post : Text) → is_word v ≡ true → is_break post ≡ true → word_end (v ++ post) ≡ some post
unfolding word_end
word_end-append [] post h b = absurd (ground (arith, h))
word_end-append (c ∷ v) post h b = ground (arith, after_word-append v post)

length-after_word : (s : Text) → length (after_word s) ≤ length s
unfolding after_word
length-after_word [] = omega arith
length-after_word (c ∷ s) = ground (arith, length-after_word s)

-- a match leaves less text than it was given
abbrev Shrinks : (Text → Option (Text × Text)) → Type 0
Shrinks matches =
    (s : Text) (group rest : Text) → matches s ≡ some (group, rest) → length rest < length s

word_end-shrinks : (s rest : Text) → word_end s ≡ some rest → length rest ≤ length s
unfolding word_end
word_end-shrinks [] rest h = absurd (ground (arith, h))
word_end-shrinks (c ∷ s) rest h = ground (arith, h, length-after_word s)

password_value-shrinks :
    (s group rest : Text) → password_value s ≡ some (group, rest) → length rest < length s
unfolding password_value with_group
password_value-shrinks [] group rest h = absurd (ground (arith, h))
password_value-shrinks (c ∷ s) group rest h = elim (Option-cases (word_end s)) [
  | inl e ↦ absurd (ground (arith, e, h))
  | inr e ↦
      let less : length e.0 ≤ length s = word_end-shrinks s e.0 e.1 in
      let same : e.0 ≡ rest = ground (arith, e.1, h) in rw (sym same) (omega (arith, less))
]

pub match_password-Shrinks : Shrinks match_password
unfolding match_password password_after
match_password-Shrinks s group rest h = elim (Option-cases (strip_prefix (codes "--password") s)) [
  | inl e ↦ absurd (ground (arith, e, h))
  | inr e ↦
      let less : length rest < length e.0 =
        password_value-shrinks e.0 group rest (rw (sym (ap password_after e.1)) h) in
      rw (strip_prefix_sound (codes "--password") s e.1) (omega (arith, less))
]

module _ (matches : Text → Option (Text × Text)) (shrinks : Shrinks matches) where
  -- fuel beyond the length of the text changes nothing
  sub_from-enough :
      (n m : ℕ) (s : Text)
      → length s ≤ n
      → length s ≤ m
      → sub_from matches n s ≡ sub_from matches m s
  unfolding sub_from replace
  sub_from-enough zero zero s a b = refl
  sub_from-enough zero (suc m) [] a b = refl
  sub_from-enough zero (suc m) (c ∷ s) a b = absurd (omega arith)
  sub_from-enough (suc n) zero [] a b = refl
  sub_from-enough (suc n) zero (c ∷ s) a b = absurd (omega arith)
  sub_from-enough (suc n) (suc m) [] a b = refl
  sub_from-enough (suc n) (suc m) (c ∷ s) a b = elim (Option-cases (matches (c ∷ s))) [
    | inl e ↦ rw e (ap (λ t. c ∷ t) (sub_from-enough n m s (omega arith) (omega arith)))
    | inr e ↦
        let less : length e.0.1 < length (c ∷ s) = shrinks (c ∷ s) e.0.0 e.0.1 e.1 in
        rw e.1 (
          ap (λ t. e.0.0 ++ (redacted ++ t))
            (sub_from-enough n m e.0.1 (omega arith) (omega arith)))
  ]

  -- where there is no match, the character is kept
  pub sub-miss :
      (c : ℕ) (s : Text) → matches (c ∷ s) ≡ none → sub matches (c ∷ s) ≡ c ∷ sub matches s
  unfolding sub sub_from replace
  sub-miss c s h = rw h refl

  -- a match at the front is replaced, and the rest is searched
  pub sub-match :
      (s group rest : Text)
      → matches s ≡ some (group, rest)
      → sub matches s ≡ group ++ (redacted ++ sub matches rest)
  unfolding sub sub_from replace
  sub-match [] group rest h =
      absurd (let less : length rest < 0 = shrinks [] group rest h in omega arith)
  sub-match (c ∷ s) group rest h =
      let less : length rest < length (c ∷ s) = shrinks (c ∷ s) group rest h in
      rw h (
        ap (λ t. group ++ (redacted ++ t))
          (sub_from-enough (length s) (length rest) rest (omega arith) (omega arith)))

pub match_password-append :
    (v post : Text)
    → is_word v ≡ true
    → is_break post ≡ true
    → match_password (codes "--password=" ++ (v ++ post)) ≡ some (codes "--password=", post)
unfolding match_password password_after password_value with_group strip_prefix
match_password-append v post h b = rw (word_end-append v post h b) refl
