-- ===== src/Ssh/Open/Frame.antt =====
-- `_open` of ssh.py and the session registry.
use tai_mcp_ssh.Prelude.{Option, none, some, Text, refl}
use tai_mcp_ssh.Config.Entry.{Host, Auth, key, password}
use tai_mcp_ssh.Process.{
  Env, Opened, opened, dead_on_open, failed_on_open, Secret, found, no_entry, keyring_error,
  update_conn,
}
use tai_mcp_ssh.Errors.{Calm}
use tai_mcp_ssh.Process.Quiet.{
  Nowhere, Writes-same, Quiet, Quiet-bind, Quiet-throw, Quiet-pure, Quiet-gets, Quiet-ask,
  Quiet-modify, Quiet-lift,
}
use tai_mcp_ssh.Str.Chars.{before, after}
use tai_mcp_ssh.Prelude.{Option-cases, Bool-cases, inl, inr, strip_prefix, ◌||◌}
use tai_mcp_ssh.Config.Entry.{keychain_prefix}
use tai_mcp_ssh.Ssh.Open.{
  parse_ref, no_text, secret_or_raise, resolve_password, password_for, new_conn, opened_or_raise,
  host_or_raise, open_conn,
}

secret_or_raise-Quiet : (r : Secret) → Quiet Nowhere (secret_or_raise r)
unfolding secret_or_raise
secret_or_raise-Quiet (found p) = Quiet-pure p
secret_or_raise-Quiet no_entry = Quiet-throw _ refl
secret_or_raise-Quiet keyring_error = Quiet-throw _ refl

parse_ref-Calm : (ref : Option Text) → Calm (parse_ref ref)
unfolding parse_ref strip_prefix
parse_ref-Calm none = refl
parse_ref-Calm (some ref) = elim (Option-cases (strip_prefix keychain_prefix ref)) [
  | inl e ↦ rw e refl
  | inr e ↦ rw e.1 (elim (Bool-cases (no_text (before b'/' e.0) || no_text (after b'/' e.0))) [
    | inl b ↦ rw b refl
    | inr b ↦ rw b tt
  ])
]

resolve_password-Quiet : (env : Env) (h : Host) → Quiet Nowhere (resolve_password env h)
unfolding resolve_password
resolve_password-Quiet env h =
    Quiet-bind _ _ (Quiet-lift _ (parse_ref-Calm h.password_ref))
      (λ _. Quiet-bind _ _ (Quiet-ask _) secret_or_raise-Quiet)

password_for-Quiet : (env : Env) (h : Host) (a : Auth) → Quiet Nowhere (password_for env h a)
unfolding password_for
password_for-Quiet env h key = Quiet-pure none
password_for-Quiet env h password =
    Quiet-bind _ _ (resolve_password-Quiet env h) (λ p. Quiet-pure (some p))

opened_or_raise-Quiet : (h : Host) (r : Opened) → Quiet Nowhere (opened_or_raise h r)
unfolding opened_or_raise update_conn
opened_or_raise-Quiet h opened = Quiet-bind _ _ (Quiet-gets _) (λ id.
    Quiet-bind _ _
      (Quiet-modify (new_conn h) (λ s. (refl, refl, refl)) (λ s. Writes-same refl refl))
      (λ _. Quiet-pure id))
opened_or_raise-Quiet h dead_on_open = Quiet-throw _ refl
opened_or_raise-Quiet h failed_on_open = Quiet-throw _ refl

host_or_raise-Quiet : (h : Option Host) → Quiet Nowhere (host_or_raise h)
unfolding host_or_raise
host_or_raise-Quiet none = Quiet-throw _ refl
host_or_raise-Quiet (some h) = Quiet-pure h

pub open_conn-Quiet : (env : Env) (alias : Text) → Quiet Nowhere (open_conn env alias)
unfolding open_conn
open_conn-Quiet env alias = Quiet-bind _ _ (Quiet-gets _) (λ found_host.
    Quiet-bind _ _ (host_or_raise-Quiet found_host) (λ h. Quiet-bind _ _ (Quiet-ask _) (λ config.
      Quiet-bind _ _ (password_for-Quiet env h h.auth)
        (λ pass. Quiet-bind _ _ (Quiet-ask _) (λ r. opened_or_raise-Quiet h r)))))
