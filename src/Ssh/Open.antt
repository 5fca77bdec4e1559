-- ===== src/Ssh/Open.antt =====
-- `_open`, `_build_connect_kwargs` and `_resolve_password` of ssh.py.
pub mod Frame
use tai_mcp_ssh.Prelude.{
  ℕ, suc, ◌+◌, Bool, true, false, not, ◌&&◌, ◌||◌, Option, none, some, List, [], ◌∷◌, ◌++◌, ◌==◌,
  if◌then◌else◌, Text, codes, strip_prefix, Dict, get, put,
}
use tai_mcp_ssh.Prelude.Int.{ℤ, pos, negsuc}
use tai_mcp_ssh.Str.Chars.{before, after}
use tai_mcp_ssh.Errors.{
  Exc, Result, ok, raise, config_error, keychain_unavailable, host_unreachable, key_error,
  other_error,
}
use tai_mcp_ssh.Config.Node.{Node, str, is_falsy}
use tai_mcp_ssh.Config.Entry.{Host, Auth, key, password, keychain_prefix, default_port, same_int}
use tai_mcp_ssh.Process.{
  ClientKeys, default_keys, no_keys, key_file, ConnectArgs, Opened, opened, dead_on_open,
  failed_on_open, Secret, found, no_entry, keyring_error, Env, Connection, Process, M, pure, throw,
  lift, gets, ask, modify, update_conn, ◌>>=◌, ◌>>◌,
}

-- `host.host or host.alias`
unfoldable pub target_of : Host → Node
target_of h = elim h.host [ none ↦ str h.alias | some v ↦ if is_falsy v then str h.alias else v ]

client_keys_of : Auth → Option Node → ClientKeys
client_keys_of key none = default_keys
client_keys_of key (some f) = key_file f
client_keys_of password f = no_keys

unfoldable pub uses_password : Auth → Bool
uses_password password = true
uses_password key = false

-- `config` is whether `~/.ssh/config` is a file; the password is added by `_open`.
unfoldable pub build_connect_kwargs : Host → Bool → ConnectArgs
unfolding target_of client_keys_of uses_password
build_connect_kwargs h config = record {
  target = target_of h;
  config = config;
  username = h.user;
  port = if same_int h.port default_port then none else some h.port;
  client_keys = client_keys_of h.auth h.identity_file;
  gss_off = uses_password h.auth;
  password = none;
}

no_text : Text → Bool
no_text [] = true
no_text (c ∷ s) = false

-- the service and the account that a reference names
unfoldable pub parse_ref : Option Text → Result (Text × Text)
unfolding no_text
parse_ref none = raise config_error
parse_ref (some ref) = elim (strip_prefix keychain_prefix ref) [
  | none ↦ raise config_error
  | some r ↦
      if no_text (before b'/' r) || no_text (after b'/' r)
      then raise config_error
      else ok (before b'/' r, after b'/' r)
]

secret_or_raise : Secret → M Text
secret_or_raise (found p) = pure p
secret_or_raise no_entry = throw keychain_unavailable
secret_or_raise keyring_error = throw keychain_unavailable

unfoldable pub resolve_password : Env → Host → M Text
unfolding secret_or_raise
resolve_password env h = do
  (service, account) ← lift (parse_ref h.password_ref)
  answer ← ask (λ t. env.get_password t service account)
  secret_or_raise answer

-- the keyword `password`, for hosts with password auth
password_for : Env → Host → Auth → M (Option Text)
password_for env h key = pure none
password_for env h password = do p ← resolve_password env h; pure (some p)

-- a new object for the opened connection
unfoldable pub new_conn : Host → Process → Process
new_conn h s = record (update_conn s.next_conn fresh s) { next_conn = suc s.next_conn }
  where
    fresh : Connection → Connection
    fresh _ = record { host = h; tmux_path = none; home_dir = none; dead = false }

opened_or_raise : Host → Opened → M ℕ
unfolding new_conn
opened_or_raise h dead_on_open = throw host_unreachable
opened_or_raise h failed_on_open = throw other_error
opened_or_raise h opened = do id ← gets (λ s. s.next_conn); modify (new_conn h); pure id

host_or_raise : Option Host → M Host
host_or_raise none = throw key_error
host_or_raise (some h) = pure h

-- `_open`
unfoldable pub open_conn : Env → Text → M ℕ
unfolding password_for opened_or_raise host_or_raise
open_conn env alias = do
  found_host ← gets (λ s. get alias s.hosts)
  h ← host_or_raise found_host
  config ← ask env.ssh_config_exists
  pass ← password_for env h h.auth
  outcome ← ask (λ t. env.connect t (record (build_connect_kwargs h config) { password = pass }))
  opened_or_raise h outcome
