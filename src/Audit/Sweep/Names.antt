-- ===== src/Audit/Sweep/Names.antt =====
-- The names of the files that `_DATE_FILE_RE` of audit.py accepts, as they are printed.
use tai_mcp_ssh.Prelude.{
  ℕ, suc, ◌+◌, ◌*◌, ◌/◌, ◌%◌, ◌≤◌, Bool, true, false, ◌&&◌, Option, none, some, [], ◌∷◌, ◌++◌, Text,
  codes, ◌≡◌, refl, ◌∙◌, ap, arith, if◌then◌else◌, inl, inr, ◌⊎◌, Option-cases, Bool-cases,
  strip_prefix_sound, text_eq, text_eq_sound,
}
use mathlib.Core.Path.{subst}
use mathlib.Core.Option.{some-injective}
use tai_mcp_ssh.Str.Dates.{Date, is_date}
use tai_mcp_ssh.Str.Dates.Order.{IsDate, is_date-IsDate}
use tai_mcp_ssh.Audit.Sweep.{◌>>=◌, digit, digits, at_end, dated, file_date}

-- the last two decimal digits of a number
abbrev two_digits : ℕ → Text
two_digits n = (b'0' + n / 10 % 10) ∷ (b'0' + n % 10) ∷ []

abbrev four_digits : ℕ → Text
four_digits n = two_digits (n / 100) ++ two_digits n

-- `YYYY-MM-DD`
abbrev pub iso_date : Date → Text
iso_date d = four_digits d.year ++ (b'-' ∷ two_digits d.month ++ (b'-' ∷ two_digits d.day))

-- a name that is that of the file of a day that exists, but for a newline that may follow
pub record NamesDay (name : Text) (d : Date) : Type 0 where
  pub exists : IsDate d
  pub ending : Text
  pub ends : (ending ≡ []) ⊎ (ending ≡ 10 ∷ [])
  pub spelled : name ≡ iso_date d ++ (codes ".jsonl" ++ ending)

bind_sound :
    {A B : Type 0} (o : Option A) (f : A → Option B) (b : B)
    → (o >>= f) ≡ some b
    → (a : A) × (o ≡ some a) × (f a ≡ some b)
unfolding ◌>>=◌
bind_sound none f b h = absurd (cc)
bind_sound (some a) f b h = (a, refl, h)

digit_sound : (c d : ℕ) → digit c ≡ some d → (c ≡ b'0' + d) × (d ≤ 9)
unfolding digit
digit_sound c d h = ground (arith, h)

-- the first of the digits, and the rest of them
digits_first :
    (n value : ℕ) (s : Text) (v : ℕ) (r : Text)
    → digits (suc n) value s ≡ some (v, r)
    → (d : ℕ) × (t : Text) × (d ≤ 9)
      × (s ≡ (b'0' + d) ∷ t)
      × (digits n (value * 10 + d) t ≡ some (v, r))
unfolding digits
digits_first n value [] v r h = absurd (cc)
digits_first n value (c ∷ s) v r h = elim (Option-cases (digit c)) [
  | inl e ↦ absurd (ground (arith, e, h))
  | inr (d, e) ↦
      let sound = digit_sound c d e in (d, s, sound.1, ap (λ x. x ∷ s) sound.0, rw (digits, e) at h)
]

digits_none : (v : ℕ) (s : Text) (w : ℕ) (r : Text) → digits 0 v s ≡ some (w, r) → (v ≡ w) × (s ≡ r)
unfolding digits
digits_none v s w r h = let e = some-injective (v, s) (w, r) h in (ap (λ p. p.0) e, ap (λ p. p.1) e)

two_digits_of :
    (a b v : ℕ)
    → a ≤ 9
    → b ≤ 9
    → (0 * 10 + a) * 10 + b ≡ v
    → (b'0' + a) ∷ (b'0' + b) ∷ [] ≡ two_digits v
two_digits_of a b v ha hb e =
    let tens : a ≡ v / 10 % 10 = omega arith in
    let ones : b ≡ v % 10 = omega arith in cc (tens, ones)

-- two digits of a text that is read from the left
digits-two : (s : Text) (v : ℕ) (r : Text) → digits 2 0 s ≡ some (v, r) → s ≡ two_digits v ++ r
digits-two s v r h =
    let (a, t, ha, e, h') = digits_first 1 0 s v r h in
    let (b, t', hb, e', h'') = digits_first 0 (0 * 10 + a) t v r h' in
    let (same, rest) = digits_none ((0 * 10 + a) * 10 + b) t' v r h'' in
    subst (λ x. s ≡ x ++ r) (two_digits_of a b v ha hb same)
      (e ∙ ap (λ u. (b'0' + a) ∷ u) (e' ∙ ap (λ u. (b'0' + b) ∷ u) rest))

four_digits_of :
    (a b c d v : ℕ)
    → a ≤ 9
    → b ≤ 9
    → c ≤ 9
    → d ≤ 9
    → (((0 * 10 + a) * 10 + b) * 10 + c) * 10 + d ≡ v
    → (b'0' + a) ∷ (b'0' + b) ∷ (b'0' + c) ∷ (b'0' + d) ∷ [] ≡ four_digits v
four_digits_of a b c d v ha hb hc hd e =
    let one : a ≡ v / 100 / 10 % 10 = omega arith in
    let two : b ≡ v / 100 % 10 = omega arith in
    let three : c ≡ v / 10 % 10 = omega arith in
    let four : d ≡ v % 10 = omega arith in cc (one, two, three, four)

digits-four : (s : Text) (v : ℕ) (r : Text) → digits 4 0 s ≡ some (v, r) → s ≡ four_digits v ++ r
digits-four s v r h =
    let (a, t, ha, e, h₁) = digits_first 3 0 s v r h in
    let (b, t₁, hb, e₁, h₂) = digits_first 2 (0 * 10 + a) t v r h₁ in
    let (c, t₂, hc, e₂, h₃) = digits_first 1 ((0 * 10 + a) * 10 + b) t₁ v r h₂ in
    let (d, t₃, hd, e₃, h₄) = digits_first 0 (((0 * 10 + a) * 10 + b) * 10 + c) t₂ v r h₃ in
    let (same, rest) = digits_none ((((0 * 10 + a) * 10 + b) * 10 + c) * 10 + d) t₃ v r h₄ in
    subst (λ x. s ≡ x ++ r) (four_digits_of a b c d v ha hb hc hd same)
      (e
        ∙ ap (λ u. (b'0' + a) ∷ u)
            (e₁
              ∙ ap (λ u. (b'0' + b) ∷ u)
                  (e₂ ∙ ap (λ u. (b'0' + c) ∷ u) (e₃ ∙ ap (λ u. (b'0' + d) ∷ u) rest))))

dated_sound :
    (d e : Date) (s : Text) → dated d s ≡ some e → (d ≡ e) × IsDate d × ((s ≡ []) ⊎ (s ≡ 10 ∷ []))
unfolding dated
dated_sound d e s h = by_tests (at_end s) (is_date d) refl refl h
  where
    ends : at_end s ≡ true → (s ≡ []) ⊎ (s ≡ 10 ∷ [])
    ends i = elim (Bool-cases (text_eq s [])) [
      | inl f ↦ inl (text_eq_sound s [] f)
      | inr f ↦ inr (text_eq_sound s (10 ∷ []) (rw (at_end, f) at i))
    ]

    by_tests :
        (a b : Bool)
        → at_end s ≡ a
        → is_date d ≡ b
        → (if a && b then some d else none) ≡ some e
        → (d ≡ e) × IsDate d × ((s ≡ []) ⊎ (s ≡ 10 ∷ []))
    by_tests true true i j g = (some-injective d e g, is_date-IsDate d j, ends i)
    by_tests true false i j g = absurd (cc)
    by_tests false b i j g = absurd (cc)

pub file_date_sound : (name : Text) (d : Date) → file_date name ≡ some d → NamesDay name d
unfolding file_date
file_date_sound name d h =
    let (y, e, h₁) = bind_sound _ _ _ h in
    let (s₁, e₁, h₂) = bind_sound _ _ _ h₁ in
    let (m, e₂, h₃) = bind_sound _ _ _ h₂ in
    let (s₃, e₃, h₄) = bind_sound _ _ _ h₃ in
    let (k, e₄, h₅) = bind_sound _ _ _ h₄ in
    let (s₅, e₅, h₆) = bind_sound _ _ _ h₅ in
    let (same, exists, ends) = dated_sound _ d s₅ h₆ in
    let named : NamesDay name (record { year = y.0; month = m.0; day = k.0 }) = record {
      exists = exists;
      ending = s₅;
      ends = ends;
      spelled =
          digits-four name y.0 y.1 e
          ∙ ap (λ t. four_digits y.0 ++ t)
              (strip_prefix_sound (codes "-") y.1 e₁
                ∙ ap (λ t. b'-' ∷ t)
                    (digits-two s₁ m.0 m.1 e₂
                      ∙ ap (λ t. two_digits m.0 ++ t)
                          (strip_prefix_sound (codes "-") m.1 e₃
                            ∙ ap (λ t. b'-' ∷ t)
                                (digits-two s₃ k.0 k.1 e₄
                                  ∙ ap (λ t. two_digits k.0 ++ t)
                                      (strip_prefix_sound (codes ".jsonl") k.1 e₅)))));
    } in
    subst (NamesDay name) same named
