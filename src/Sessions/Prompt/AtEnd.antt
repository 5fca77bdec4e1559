-- ===== src/Sessions/Prompt/AtEnd.antt =====
-- Where in the log `_detect_prompt` of sessions.py detects a prompt.
use tai_mcp_ssh.Prelude.{
  ℕ, ◌-◌, Bool, true, false, ◌||◌, Option, none, some, List, [], ◌∷◌, ◌++◌, ◌≡◌, refl, ap, ◌∙◌, sym,
  ◌⊎◌, inl, inr, arith, ◌==◌, if◌then◌else◌, Text, codes, All, append_assoc, take_last, take,
  length, take-append-drop, strip_prefix, strip_prefix_sound, Option-cases, Bool-cases,
}
use tai_mcp_ssh.Str.Chars.{strip}
use tai_mcp_ssh.Sessions.Prompt.{
  Status, needs_password, needs_input, Pattern, blanks, then_blanks, user_colon, user_prompt,
  fingerprint, yes_no, sudo, password, hostkey, confirm, prompt_patterns, search, first_prompt,
  detect_prompt, prompt_window,
}

-- the last character that is no space and no tab
unfoldable pub last_solid : Text → Option ℕ
last_solid [] = none
last_solid (c ∷ s) = elim (last_solid s) [
  | some x ↦ some x
  | none ↦ if c == 32 || c == 9 then none else some c
]

last_solid-blanks : (s : Text) → blanks s ≡ true → last_solid s ≡ none
unfolding blanks last_solid
last_solid-blanks [] h = refl
last_solid-blanks (c ∷ s) h = ground (arith, last_solid-blanks s)

last_solid-cons : (c x : ℕ) (s : Text) → last_solid s ≡ some x → last_solid (c ∷ s) ≡ some x
unfolding last_solid
last_solid-cons c x s h = ground (arith, h)

last_solid_here :
    (c : ℕ) (s : Text) → blanks s ≡ true → (c == 32 || c == 9) ≡ false → last_solid (c ∷ s) ≡ some c
unfolding last_solid
last_solid_here c s h k = ground (arith, last_solid-blanks s h)

last_solid-append : (pre s : Text) (x : ℕ) → last_solid s ≡ some x → last_solid (pre ++ s) ≡ some x
last_solid-append [] s x h = h
last_solid-append (c ∷ pre) s x h = last_solid-cons c x (pre ++ s) (last_solid-append pre s x h)

-- A text that ends, but for blanks, in a colon, a question mark or a closing bracket.
abbrev pub EndsLikePrompt : Text → Type 0
EndsLikePrompt s =
    (last_solid s ≡ some b':') ⊎ ((last_solid s ≡ some b'?') ⊎ (last_solid s ≡ some b']'))

EndsLikePrompt-append : (pre s : Text) → EndsLikePrompt s → EndsLikePrompt (pre ++ s)
EndsLikePrompt-append pre s (inl h) = inl (last_solid-append pre s b':' h)
EndsLikePrompt-append pre s (inr (inl h)) = inr (inl (last_solid-append pre s b'?' h))
EndsLikePrompt-append pre s (inr (inr h)) = inr (inr (last_solid-append pre s b']' h))

user_colon-ends : (s : Text) → user_colon s ≡ true → last_solid s ≡ some b':'
unfolding user_colon
user_colon-ends [] h = cc
user_colon-ends (c ∷ s) h =
    ground (arith, user_colon-ends s, last_solid_here c s, last_solid-cons c b':' s)

-- what a literal and blanks behind it end in
then_blanks-ends :
    (p s : Text) (x : ℕ)
    → ((r : Text) → blanks r ≡ true → last_solid (p ++ r) ≡ some x)
    → then_blanks (strip_prefix p s) ≡ true
    → last_solid s ≡ some x
unfolding then_blanks
then_blanks-ends p s x ends h = elim (Option-cases (strip_prefix p s)) [
  | inl e ↦ ground (arith, e)
  | inr (r, e) ↦ rw (strip_prefix_sound p s e) (ends r (ground (arith, e)))
]

user_prompt-ends : (s : Text) → user_prompt (some s) ≡ true → last_solid s ≡ some b':'
unfolding user_prompt
user_prompt-ends [] h = cc
user_prompt-ends (c ∷ s) h = last_solid-cons c b':' s (user_colon-ends s (ground arith))

sudo_prefix : Text
sudo_prefix = codes "[sudo] password for "

sudo-ends : (b : Bool) (s : Text) → sudo b s ≡ true → last_solid s ≡ some b':'
unfolding sudo user_prompt sudo_prefix
sudo-ends b s h = elim (Option-cases (strip_prefix sudo_prefix s)) [
  | inl e ↦ ground (arith, e)
  | inr (r, e) ↦
      rw (strip_prefix_sound sudo_prefix s e)
        (last_solid-append sudo_prefix r b':' (user_prompt-ends r (sym (ap user_prompt e) ∙ h)))
]

literal-ends :
    (p : Text) (c : ℕ) (r : Text)
    → (c == 32 || c == 9) ≡ false
    → blanks r ≡ true
    → last_solid ((p ++ c ∷ []) ++ r) ≡ some c
literal-ends p c r solid h =
    ap last_solid (append_assoc p (c ∷ []) r)
    ∙ last_solid-append p (c ∷ r) c (last_solid_here c r h solid)

password-ends : (b : Bool) (s : Text) → password b s ≡ true → last_solid s ≡ some b':'
unfolding password
password-ends b s h = ground (
  arith,
  then_blanks-ends (codes "Password:") s b':'
      (λ r k. literal-ends (codes "Password") b':' r refl k),
  then_blanks-ends (10 ∷ codes "Password:") s b':'
      (λ r k. literal-ends (10 ∷ codes "Password") b':' r refl k),
)

fingerprint-ends : (s : Text) → fingerprint (some s) ≡ true → last_solid s ≡ some b'?'
unfolding fingerprint
fingerprint-ends s h = elim (Option-cases (strip_prefix (codes "/[fingerprint]") s)) [
  | inl e ↦ question s (ground (arith, e))
  | inr (r, e) ↦
      rw (strip_prefix_sound (codes "/[fingerprint]") s e)
        (last_solid-append (codes "/[fingerprint]") r b'?' (question r (ground (arith, e))))
]
  where
    question :
        (t : Text) → then_blanks (strip_prefix (codes ")?") t) ≡ true → last_solid t ≡ some b'?'
    question t k =
        then_blanks-ends (codes ")?") t b'?' (λ r q. literal-ends (codes ")") b'?' r refl q) k

hostkey_prefix : Text
hostkey_prefix = codes "Are you sure you want to continue connecting (yes/no"

hostkey-ends : (b : Bool) (s : Text) → hostkey b s ≡ true → last_solid s ≡ some b'?'
unfolding hostkey fingerprint hostkey_prefix
hostkey-ends b s h = elim (Option-cases (strip_prefix hostkey_prefix s)) [
  | inl e ↦ ground (arith, e)
  | inr (r, e) ↦
      rw (strip_prefix_sound hostkey_prefix s e)
        (last_solid-append hostkey_prefix r b'?' (fingerprint-ends r (sym (ap fingerprint e) ∙ h)))
]

confirm-ends : (b : Bool) (s : Text) → confirm b s ≡ true → last_solid s ≡ some b']'
unfolding confirm yes_no
confirm-ends b (a ∷ y ∷ c ∷ n ∷ e ∷ s) h =
    last_solid-append (a ∷ y ∷ c ∷ n ∷ []) (e ∷ s) b']' (ground (arith, last_solid_here b']' s))
confirm-ends b s h = cc

-- What stands at the end of a log in which a prompt was found.
pub record AtEnd (content : Text) (status : Status) (prompt : Text) : Type 0 where
  pub before : Text
  pub matched : Text
  pub at_end : content ≡ before ++ matched
  pub reported : prompt ≡ strip matched
  pub ends :
      ((status ≡ needs_password) × (last_solid content ≡ some b':'))
      ⊎ ((status ≡ needs_input)
          × ((last_solid content ≡ some b'?') ⊎ (last_solid content ≡ some b']')))

module _ (p : Pattern) (x : ℕ)
    (ends : (b : Bool) (s : Text) → p b s ≡ true → last_solid s ≡ some x) where
  search-ends :
      (b : Bool) (s : Text) {m : Text}
      → search p b s ≡ some m
      → (before : Text) × (s ≡ before ++ m) × (last_solid s ≡ some x)
  unfolding search
  search-ends b [] {m} h = elim (Bool-cases (p b [])) [
    | inl e ↦ ([], ground (arith, e), ends b [] e)
    | inr e ↦ absurd (ground (arith, e))
  ]
  search-ends b (c ∷ s) {m} h = elim (Bool-cases (p b (c ∷ s))) [
    | inl e ↦ ([], ground (arith, e), ends b (c ∷ s) e)
    | inr e ↦
        let (before, split, last) = search-ends false s {m = m} (ground (arith, e)) in
        (c ∷ before, ap (λ t. c ∷ t) split, last_solid-cons c x s last)
  ]

first_prompt_cases :
    (p : Pattern) (st : Status) (ps : List (Pattern × Status)) (tail : Text) (status : Status)
    (prompt : Text)
    → first_prompt ((p, st) ∷ ps) tail ≡ some (status, prompt)
    → ((m : Text) × (search p true tail ≡ some m) × (status ≡ st) × (prompt ≡ strip m))
      ⊎ (first_prompt ps tail ≡ some (status, prompt))
unfolding first_prompt
first_prompt_cases p st ps tail status prompt h = elim (Option-cases (search p true tail)) [
  | inl e ↦ inr (ground (arith, e))
  | inr (m, e) ↦ inl (m, e, ground (arith, e), ground (arith, e))
]

-- the status, and the character in which the text ends
abbrev Kind : Status → ℕ → Type 0
Kind st x = ((st ≡ needs_password) × (x ≡ b':')) ⊎ ((st ≡ needs_input) × ((x ≡ b'?') ⊎ (x ≡ b']')))

abbrev Known : Pattern × Status → Type 0
Known (p, st) = (x : ℕ) × ((b : Bool) (s : Text) → p b s ≡ true → last_solid s ≡ some x) × Kind st x

patterns-Known : All Known prompt_patterns
unfolding prompt_patterns
patterns-Known = (
  (b':', sudo-ends, inl (refl, refl)),
  (
    (b':', password-ends, inl (refl, refl)),
    (
      (b'?', hostkey-ends, inr (refl, inl refl)),
      (
        (b']', confirm-ends, inr (refl, inr refl)),
        ((b']', confirm-ends, inr (refl, inr refl)), tt),
      ),
    ),
  ),
)

Kind-ends :
    (content : Text) (st : Status) (x : ℕ)
    → last_solid content ≡ some x
    → Kind st x
    → ((st ≡ needs_password) × (last_solid content ≡ some b':'))
      ⊎ ((st ≡ needs_input) × ((last_solid content ≡ some b'?') ⊎ (last_solid content ≡ some b']')))
Kind-ends content st x h k = ground arith

module _ (content before tail : Text) (split : content ≡ before ++ tail) where
  first_prompt-AtEnd :
      (ps : List (Pattern × Status))
      → All Known ps
      → (status : Status) (prompt : Text) → first_prompt ps tail ≡ some (status, prompt)
      → AtEnd content status prompt
  first_prompt-AtEnd [] known status prompt h = unfold first_prompt in cc
  first_prompt-AtEnd ((p, st) ∷ ps) ((x, ends, kind), known) status prompt h =
      elim (first_prompt_cases p st ps tail status prompt h) [
        | inr later ↦ first_prompt-AtEnd ps known status prompt later
        | inl (m, found, is_status, is_prompt) ↦
            let (inner, here, last) = search-ends p x ends true tail {m = m} found in
            record {
              before = before ++ inner;
              matched = m;
              at_end = split ∙ ap (λ t. before ++ t) here ∙ sym (append_assoc before inner m);
              reported = is_prompt;
              ends = rw is_status (
                  Kind-ends content st x
                    (ap last_solid split ∙ last_solid-append before tail x last) kind);
            }
      ]

-- A reported prompt is the end of the log, without the blanks around it. The log ends, but for
-- spaces and tabs, in a colon if the status is `needs_password`, and in a question mark or a
-- closing bracket if it is `needs_input`; there is no other status. So text that looks like a prompt
-- in the middle of the log is not reported.
pub detect_prompt-AtEnd :
    (content : Text) (status : Status) (prompt : Text)
    → detect_prompt content ≡ some (status, prompt)
    → AtEnd content status prompt
unfolding detect_prompt
detect_prompt-AtEnd content status prompt h =
    first_prompt-AtEnd content (take k content) tail (sym (take-append-drop k content))
      prompt_patterns patterns-Known status prompt h
  where
    k : ℕ
    k = length content - prompt_window

    tail : Text
    tail = take_last prompt_window content
