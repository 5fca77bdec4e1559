-- ===== src/Config/File.antt =====
-- `load_config`, `save_host` and `delete_host` of config.py, with the settings records.
pub mod Ends
pub mod Saved
use tai_mcp_ssh.Prelude.{
  ℕ, Bool, true, false, not, ◌&&◌, ◌||◌, Option, none, some, List, [], ◌∷◌, ◌++◌, ◌≡◌, refl, ◌==◌,
  if◌then◌else◌, Text, codes, is_some, Dict, get, put, remove,
}
use tai_mcp_ssh.Prelude.Int.{ℤ, pos, negsuc}
use tai_mcp_ssh.Errors.{Result, ok, raise, config_error, value_error, type_error, ◌>>=◌, ◌>>◌}
use tai_mcp_ssh.Config.Node.{
  Node, Table, Items, str, num, bool, float, moment, table, array, end, entry, get_key, put_key,
  remove_key, is_falsy, to_int, contains_text,
}
use tai_mcp_ssh.Config.Forbidden.{reject_forbidden_keys}
use tai_mcp_ssh.Config.Entry.{Host, read_int, entry_to_host, host_to_entry}

abbrev pub default_audit_retention_days : ℤ
default_audit_retention_days = pos 90

abbrev pub default_session_idle_timeout_hours : ℕ
default_session_idle_timeout_hours = 48

-- `audit.retention_days` is `AuditSettings`, `idle_timeout_hours` is `SessionSettings`.
pub record Config : Type 0 where
  pub hosts : Dict Host
  pub retention_days : ℤ
  pub idle_timeout_hours : ℕ

-- What parses and prints TOML: `tomllib.loads`, where `none` is its error, and `tomli_w.dumps`.
pub record Toml : Type 0 where
  pub loads : Text → Option Table
  pub dumps : Table → Text

abbrev pub empty_config : Config
empty_config = record {
  hosts = [];
  retention_days = default_audit_retention_days;
  idle_timeout_hours = default_session_idle_timeout_hours;
}

table_of : Node → Result Table
table_of (table t) = ok t
table_of _ = raise config_error

-- `raw.get(name, {}) or {}`, and the test that it is a table
unfoldable pub section : Text → Table → Result Table
unfolding table_of
section name raw = elim (get_key name raw) [
  | none ↦ ok end
  | some v ↦ if is_falsy v then ok end else table_of v
]

-- the loop over `hosts_table.items()`
unfoldable pub read_hosts : Table → Dict Host → Result (Dict Host)
unfolding table_of
read_hosts end hosts = ok hosts
read_hosts (entry alias v t) hosts = do
  e ← table_of v
  h ← entry_to_host alias e
  read_hosts t (put alias h hosts)

unfoldable pub read_idle : Option Node → Result ℕ
read_idle none = ok default_session_idle_timeout_hours
read_idle (some (num (pos n))) = ok n
read_idle (some _) = raise config_error

unfoldable pub config_of : Table → Result Config
unfolding read_hosts section read_idle
config_of raw = do
  reject_forbidden_keys (table raw)
  hosts_table ← section (codes "hosts") raw
  hosts ← read_hosts hosts_table []
  audit_table ← section (codes "audit") raw
  retention_days ←
      read_int (get_key (codes "retention_days") audit_table) default_audit_retention_days
  sessions_table ← section (codes "sessions") raw
  idle ← read_idle (get_key (codes "idle_timeout_hours") sessions_table)
  ok (record { hosts = hosts; retention_days = retention_days; idle_timeout_hours = idle })

parsed : Option Table → Result Table
parsed none = raise value_error
parsed (some t) = ok t

-- The file is `none` where it does not exist.
unfoldable pub load_config : Toml → Option Text → Result Config
unfolding config_of parsed
load_config toml none = ok empty_config
load_config toml (some text) = do raw ← parsed (toml.loads text); config_of raw

-- `raw.setdefault("hosts", {})[alias] = e`
set_host : Text → Table → Table → Result Table
set_host alias e raw = elim (get_key (codes "hosts") raw) [
  | none ↦ ok (put_key (codes "hosts") (table (entry alias (table e) end)) raw)
  | some (table hosts) ↦ ok (put_key (codes "hosts") (table (put_key alias (table e) hosts)) raw)
  | some _ ↦ raise type_error
]

-- the table that a write starts from
read_raw : Toml → Option Text → Result Table
unfolding parsed
read_raw toml none = ok end
read_raw toml (some text) = do
  raw ← parsed (toml.loads text)
  reject_forbidden_keys (table raw)
  ok raw

-- the table that is written
unfoldable pub saved_table : Toml → Host → Option Text → Result Table
unfolding set_host read_raw
saved_table toml h file = do raw ← read_raw toml file; set_host h.alias (host_to_entry h) raw

unfoldable pub save_host : Toml → Host → Option Text → Result Text
save_host toml h file = do raw ← saved_table toml h file; ok (toml.dumps raw)

-- `if alias in hosts: del hosts[alias]`, and the write; only a table has the deletion
del_host : Toml → Text → Text → Table → Result Text
del_host toml alias text raw = elim (get_key (codes "hosts") raw) [
  | none ↦ ok text
  | some (table hosts) ↦
      if is_some (get_key alias hosts)
      then ok (toml.dumps (put_key (codes "hosts") (table (remove_key alias hosts)) raw))
      else ok text
  | some v ↦ (contains_text alias v >>= λ found. if found then raise type_error else ok text)
]

unfoldable pub delete_host : Toml → Text → Option Text → Result (Option Text)
unfolding del_host parsed
delete_host toml alias none = ok none
delete_host toml alias (some text) = do
  raw ← parsed (toml.loads text)
  text' ← del_host toml alias text raw
  ok (some text')
