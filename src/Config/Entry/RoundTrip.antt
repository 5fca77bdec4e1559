-- ===== src/Config/Entry/RoundTrip.antt =====
-- `_entry_to_host` after `_host_to_entry`, of config.py.
use tai_mcp_ssh.Prelude.{
  true, ◌&&◌, Option, none, some, [], ◌∷◌, ◌≡◌, refl, arith, ap, sym, if◌then◌else◌, Text, codes,
  strip_prefix, is_some, text_eq, Bool-cases, inl, inr,
}
use mathlib.Core.Path.{subst}
use tai_mcp_ssh.Prelude.Int.{ℤ, pos, negsuc}
use tai_mcp_ssh.Errors.{ok, >>=-eq-ok, ok-injective}
use tai_mcp_ssh.Config.Node.{
  Node, Table, str, num, get_key, is_text, is_falsy, to_int, get_key-put_key,
}
use tai_mcp_ssh.Config.Entry.{
  Host, Auth, key, password, default_port, default_log_retention_days, keychain_prefix, read_auth,
  checked_ref, missing_ref, is_password, read_password_ref, read_int, entry_to_host, put_some,
  same_int, put_int, auth_text, ref_node, host_to_entry,
}

-- What `_entry_to_host` checks of a host.
abbrev pub HasRef : Auth → Option Text → Type 0
HasRef key none = Unit {0}
HasRef password none = ⊥
HasRef auth (some s) = is_some (strip_prefix keychain_prefix s) ≡ true

abbrev pub IsValid : Host → Type 0
IsValid h = HasRef h.auth h.password_ref

or_else : Option Node → Option Node → Option Node
or_else none d = d
or_else (some v) d = some v

get_key-put_some :
    (k j : Text) (v : Option Node) (t : Table)
    → get_key j (put_some k v t) ≡ (if text_eq k j then or_else v (get_key j t) else get_key j t)
unfolding put_some or_else
get_key-put_some k j none t = ground arith
get_key-put_some k j (some v) t = get_key-put_key k j v t

int_node : ℤ → ℤ → Option Node
int_node n default = if same_int n default then none else some (num n)

get_key-put_int :
    (k j : Text) (n default : ℤ) (t : Table)
    → get_key j (put_int k n default t)
      ≡ (if text_eq k j then or_else (int_node n default) (get_key j t) else get_key j t)
unfolding put_int or_else int_node
get_key-put_int k j n default t = ground (arith, get_key-put_key k j (num n) t)

same_int_sound : (n m : ℤ) → same_int n m ≡ true → n ≡ m
unfolding same_int
same_int_sound (pos n) (pos m) h = ground arith
same_int_sound (pos n) (negsuc m) h = cc
same_int_sound (negsuc n) (pos m) h = cc
same_int_sound (negsuc n) (negsuc m) h = ground arith

read_int-node : (n default : ℤ) → read_int (or_else (int_node n default) none) default ≡ ok n
unfolding read_int or_else int_node to_int
read_int-node n default = elim (Bool-cases (same_int n default)) [
  | inl e ↦ rw e (ap ok (sym (same_int_sound n default e)))
  | inr e ↦ rw e
]

or_else-none : (v : Option Node) → or_else v none ≡ v
unfolding or_else
or_else-none none = refl
or_else-none (some v) = refl

read_auth-text : (a : Auth) → read_auth (some (str (auth_text a))) ≡ ok a
unfolding read_auth auth_text is_text text_eq
read_auth-text key = refl
read_auth-text password = refl

read_password_ref-node :
    (a : Auth) (ref : Option Text)
    → HasRef a ref
    → read_password_ref a (or_else (ref_node ref) none) ≡ ok ref
unfolding read_password_ref or_else ref_node is_falsy
read_password_ref-node key none h = refl
read_password_ref-node password none h = absurd h
read_password_ref-node key (some s) h = rw h
read_password_ref-node password (some []) h = unfold strip_prefix in cc
read_password_ref-node password (some (c ∷ s)) h = rw h

ruleset entry_laws = (get_key-put_some, get_key-put_int, get_key-put_key)

module _ (h : Host) where
  host_key : get_key (codes "host") (host_to_entry h) ≡ or_else h.host none
  unfolding host_to_entry text_eq get_key
  host_key = simp entry_laws

  user_key : get_key (codes "user") (host_to_entry h) ≡ or_else h.user none
  unfolding host_to_entry text_eq get_key
  user_key = simp entry_laws

  port_key : get_key (codes "port") (host_to_entry h) ≡ or_else (int_node h.port default_port) none
  unfolding host_to_entry text_eq get_key
  port_key = simp entry_laws

  auth_key : get_key (codes "auth") (host_to_entry h) ≡ some (str (auth_text h.auth))
  unfolding host_to_entry text_eq get_key
  auth_key = simp entry_laws

  file_key : get_key (codes "identity_file") (host_to_entry h) ≡ or_else h.identity_file none
  unfolding host_to_entry text_eq get_key
  file_key = simp entry_laws

  ref_key :
      get_key (codes "password_ref") (host_to_entry h) ≡ or_else (ref_node h.password_ref) none
  unfolding host_to_entry text_eq get_key
  ref_key = simp entry_laws

  days_key :
      get_key (codes "log_retention_days") (host_to_entry h)
      ≡ or_else (int_node h.log_retention_days default_log_retention_days) none
  unfolding host_to_entry text_eq get_key
  days_key = simp entry_laws

-- A host that has what its auth method needs is read back unchanged from the entry that it is
-- written as: no field is lost where a default is left out.
pub entry_to_host-host_to_entry :
    (h : Host) → IsValid h → entry_to_host h.alias (host_to_entry h) ≡ ok h
unfolding entry_to_host
entry_to_host-host_to_entry h v =
    simp
      (
        auth_key h,
        read_auth-text h.auth,
        ref_key h,
        read_password_ref-node h.auth h.password_ref v,
        port_key h,
        read_int-node h.port default_port,
        days_key h,
        read_int-node h.log_retention_days default_log_retention_days,
        host_key h,
        user_key h,
        file_key h,
      )
      (simp or_else-none)

checked_ref_cases :
    (v : Node) {ref : Option Text}
    → checked_ref v ≡ ok ref
    → (s : Text) × (ref ≡ some s) × (is_some (strip_prefix keychain_prefix s) ≡ true)
unfolding checked_ref
checked_ref_cases (str s) {ref} h = elim (Bool-cases (is_some (strip_prefix keychain_prefix s))) [
  | inl e ↦ (s, ground (arith, e), e)
  | inr e ↦ absurd (ground (arith, e))
]
checked_ref_cases v h = cc

HasRef-some :
    (a : Auth) (s : Text) → is_some (strip_prefix keychain_prefix s) ≡ true → HasRef a (some s)
HasRef-some key s h = h
HasRef-some password s h = h

read_password_ref-HasRef :
    (a : Auth) (v : Option Node) {ref : Option Text} → read_password_ref a v ≡ ok ref → HasRef a ref
unfolding read_password_ref checked_ref missing_ref is_password
read_password_ref-HasRef key none {ref = none} h = tt
read_password_ref-HasRef key none {ref = some s} h = cc
read_password_ref-HasRef password none h = cc
read_password_ref-HasRef a (some v) {ref} h =
    elim (Bool-cases (is_password a && missing_ref (some v))) [
      | inl e ↦ absurd (ground (arith, e))
      | inr e ↦
          let (s, is_s, prefixed) = checked_ref_cases v {ref = ref} (ground (arith, e)) in
          rw is_s (HasRef-some a s prefixed)
    ]

-- Whatever entry is read, what comes out is a host of that alias that has what its auth method
-- needs: with password auth there is a reference, and a reference has the keychain scheme.
pub entry_to_host-IsValid :
    (alias : Text) (e : Table) {h : Host}
    → entry_to_host alias e ≡ ok h
    → IsValid h × (h.alias ≡ alias)
unfolding entry_to_host
entry_to_host-IsValid alias e {h} read =
    let (auth, e₁, r₁) = >>=-eq-ok (read_auth (get_key (codes "auth") e)) _ read in
    let (ref, e₂, r₂) =
      >>=-eq-ok (read_password_ref auth (get_key (codes "password_ref") e)) _ r₁ in
    let (port, e₃, r₃) = >>=-eq-ok (read_int (get_key (codes "port") e) default_port) _ r₂ in
    let (days, e₄, r₄) =
      >>=-eq-ok (read_int (get_key (codes "log_retention_days") e) default_log_retention_days) _
        r₃ in
    let same = ok-injective r₄ in
    subst (λ h. IsValid h × (h.alias ≡ alias)) same
      (read_password_ref-HasRef auth (get_key (codes "password_ref") e) e₂, refl)
