-- ===== src/Services.antt =====
-- `Services.reload_hosts_from_disk` of server.py.
use tai_mcp_ssh.Prelude.{
  ℕ, Bool, true, false, not, ◌&&◌, Option, none, some, List, ◌++◌, Text, text_eq, length, select,
  member, Dict, get, keys,
}
use tai_mcp_ssh.Errors.{Result, raise, os_error}
use tai_mcp_ssh.Config.Entry.{Host, Auth, key, password, same_int}
use tai_mcp_ssh.Config.File.{Config, load_config}
use tai_mcp_ssh.Process.{Env, M, pure, lift, gets, ask, modify, ◌>>=◌, ◌>>◌}
use tai_mcp_ssh.Ssh.Pool.{update_hosts}

same_auth : Auth → Auth → Bool
same_auth key key = true
same_auth password password = true
same_auth _ _ = false

same_option : {A : Type 0} → (A → A → Bool) → Option A → Option A → Bool
same_option same none none = true
same_option same (some a) (some b) = same a b
same_option same _ _ = false

-- `old == new` on hosts
unfoldable pub same_host : Env → Host → Host → Bool
unfolding same_auth same_option
same_host env a b =
    text_eq a.alias b.alias
    && same_option env.same_value a.host b.host
    && same_option env.same_value a.user b.user
    && same_int a.port b.port
    && same_auth a.auth b.auth
    && same_option env.same_value a.identity_file b.identity_file
    && same_option text_eq a.password_ref b.password_ref
    && same_int a.log_retention_days b.log_retention_days

-- the keys of the first that are not in the second
unfoldable pub keys_without : Dict Host → Dict Host → List Text
keys_without d e = select (λ k. not (member k (keys e))) (keys d)

unfoldable pub differs : Env → Option Host → Option Host → Bool
differs env (some h) (some g) = not (same_host env h g)
differs env _ _ = false

-- the keys of both whose hosts differ
unfoldable pub keys_changed : Env → Dict Host → Dict Host → List Text
keys_changed env old new = select (λ k. differs env (get k old) (get k new)) (keys old)

unfoldable pub read_config : Env → Option (Option Text) → Result Config
read_config env none = raise os_error
read_config env (some file) = load_config env.toml file

-- `reload_hosts_from_disk`: the numbers of hosts added, removed and changed
unfoldable pub reload_hosts_from_disk : Env → M (ℕ × ℕ × ℕ)
unfolding read_config
reload_hosts_from_disk env = do
  file ← ask env.hosts_file
  new ← lift (read_config env file)
  old ← gets (λ s. s.config.hosts)
  let added = keys_without new.hosts old
  let removed = keys_without old new.hosts
  let changed = keys_changed env old new.hosts
  modify (λ s. record s { config = new })
  update_hosts new.hosts (removed ++ changed) (some new.idle_timeout_hours)
  pure (length added, length removed, length changed)
