-- ===== src/Sessions/Id/Parse.antt =====
-- What `parse_session_id` accepts, and what it returns.
use tai_mcp_ssh.Prelude.{
  true, false, [], ◌∷◌, ◌++◌, ◌≡◌, ◌≢◌, refl, arith, Text, All, Bool-cases, inl, inr, ◌⊎◌,
}
use tai_mcp_ssh.Str.Chars.{
  before, after, contains, before-after, contains-before, before-append, after-append,
  contains-append_sep,
}
use tai_mcp_ssh.Errors.{value_error, ok, raise}
use tai_mcp_ssh.Sessions.Id.{
  slash, is_safe_char, all_safe, is_empty, is_safe_name, parse_session_id,
}

abbrev pub IsSafe : Text → Type 0
IsSafe = All (λ c. is_safe_char c ≡ true)

all_safe_sound : (s : Text) → all_safe s ≡ true → IsSafe s
unfolding all_safe
all_safe_sound [] h = tt
all_safe_sound (c ∷ s) h = (ground arith, all_safe_sound s (ground arith))

all_safe_complete : (s : Text) → IsSafe s → all_safe s ≡ true
unfolding all_safe
all_safe_complete [] h = refl
all_safe_complete (c ∷ s) h = ground (arith, h.0, all_safe_complete s h.1)

ne_nil_of_is_empty : (s : Text) → is_empty s ≡ false → s ≢ []
unfolding is_empty
ne_nil_of_is_empty [] h = cc
ne_nil_of_is_empty (c ∷ s) h = λ e. cc

is_empty_of_ne_nil : (s : Text) → s ≢ [] → is_empty s ≡ false
unfolding is_empty
is_empty_of_ne_nil [] h = absurd (h refl)
is_empty_of_ne_nil (c ∷ s) h = refl

-- What parsing has checked.
pub record Parsed (session_id host name : Text) : Type 0 where
  pub spelled : session_id ≡ host ++ slash ∷ name
  pub host_found : host ≢ []
  pub no_slash : contains slash host ≡ false
  pub name_found : name ≢ []
  pub safe : IsSafe name

-- An accepted session id is the host, a slash and the name; neither is empty, the host holds no
-- slash, and the name holds only letters, digits, underscores and dashes.
pub parse_sound :
    (session_id host name : Text)
    → parse_session_id session_id ≡ ok (host, name)
    → Parsed session_id host name
unfolding parse_session_id is_safe_name
parse_sound sid host name h = elim (Bool-cases (contains slash sid)) [
  | inr no_sep ↦ ground (arith)
  | inl sep ↦
      let eh : host ≡ before slash sid = ground arith in
      let en : name ≡ after slash sid = ground arith in
      record {
        spelled = rw (eh, en) (before-after slash sid sep);
        host_found = rw eh (ne_nil_of_is_empty (before slash sid) (ground arith));
        no_slash = rw eh (contains-before slash sid);
        name_found = rw en (ne_nil_of_is_empty (after slash sid) (ground arith));
        safe = rw en (all_safe_sound (after slash sid) (ground arith));
      }
]

-- Every id that is a host, a slash and a name is accepted, and its parts come back, if neither is
-- empty, the host holds no slash, and the name holds only letters, digits, underscores and dashes.
pub parse_complete :
    (session_id host name : Text)
    → Parsed session_id host name
    → parse_session_id session_id ≡ ok (host, name)
unfolding parse_session_id is_safe_name
parse_complete sid host name p = rw p.spelled (
    ground (
      arith,
      contains-append_sep slash host name,
      before-append slash host name p.no_slash,
      after-append slash host name p.no_slash,
      is_empty_of_ne_nil host p.host_found,
      is_empty_of_ne_nil name p.name_found,
      all_safe_complete name p.safe,
    ))

-- nothing but a pair or `ValueError` comes of parsing
pub parse_cases :
    (session_id : Text)
    → (parse_session_id session_id ≡ raise value_error)
      ⊎ ((host : Text) × (name : Text) × (parse_session_id session_id ≡ ok (host, name)))
unfolding parse_session_id
parse_cases sid = ground arith

-- what parsing makes of an id that is no host, slash and name
pub record Refused (session_id : Text) : Type 0 where
  pub raised : parse_session_id session_id ≡ raise value_error
  pub unparsed : (host name : Text) → ¬ Parsed session_id host name

-- what parsing makes of an id that is one
pub record Accepted (session_id : Text) : Type 0 where
  pub host : Text
  pub name : Text
  pub returned : parse_session_id session_id ≡ ok (host, name)
  pub parsed : Parsed session_id host name

-- `ValueError` is raised exactly for an id that cannot be read as a host, a slash and a name, where
-- neither is empty, the host holds no slash, and the name holds only letters, digits, underscores
-- and dashes. For any other id the host and the name that it reads as are returned, so that nothing
-- else is ever raised.
pub parse_error : (session_id : Text) → Refused session_id ⊎ Accepted session_id
parse_error sid = elim (parse_cases sid) [
  | inl e ↦ inl (record {
    raised = e;
    unparsed = λ host name p. let returned = parse_complete sid host name p in absurd (cc);
  })
  | inr (host, name, e) ↦
      inr (record { host = host; name = name; returned = e; parsed = parse_sound sid host name e })
]
