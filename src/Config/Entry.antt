-- ===== src/Config/Entry.antt =====
-- `Host`, `_entry_to_host` and `_host_to_entry` of config.py.
pub mod RoundTrip
use tai_mcp_ssh.Prelude.{
  ℕ, Bool, true, false, not, ◌&&◌, ◌||◌, Option, none, some, List, [], ◌∷◌, ◌++◌, ◌≡◌, refl, ◌==◌,
  if◌then◌else◌, Text, codes, strip_prefix, is_some,
}
use tai_mcp_ssh.Prelude.Int.{ℤ, pos, negsuc}
use tai_mcp_ssh.Errors.{Result, ok, raise, config_error, other_error, ◌>>=◌}
use tai_mcp_ssh.Config.Node.{
  Node, Table, str, num, end, entry, get_key, put_key, is_text, is_falsy, to_int,
}

abbrev pub default_port : ℤ
default_port = pos 22

abbrev pub default_log_retention_days : ℤ
default_log_retention_days = pos 7

pub data Auth : Type 0 where
  key password : Auth

-- The fields `host`, `user` and `identity_file` are not checked: a value of any type may be in them.
pub record Host : Type 0 where
  pub alias : Text
  pub host : Option Node
  pub user : Option Node
  pub port : ℤ
  pub auth : Auth
  pub identity_file : Option Node
  pub password_ref : Option Text
  pub log_retention_days : ℤ

abbrev pub keychain_prefix : Text
keychain_prefix = codes "keychain://"

-- `entry.get("auth", "key")`, and the test that it is one of the two
unfoldable pub read_auth : Option Node → Result Auth
read_auth none = ok key
read_auth (some v) =
    if is_text (codes "key") v
    then ok key
    else if is_text (codes "password") v
    then ok password
    else raise config_error

-- `v.startswith("keychain://")`; only a text has the method
unfoldable pub checked_ref : Node → Result (Option Text)
checked_ref (str s) =
    if is_some (strip_prefix keychain_prefix s) then ok (some s) else raise config_error
checked_ref _ = raise other_error

missing_ref : Option Node → Bool
missing_ref none = true
missing_ref (some v) = is_falsy v

is_password : Auth → Bool
is_password password = true
is_password key = false

unfoldable pub read_password_ref : Auth → Option Node → Result (Option Text)
unfolding checked_ref missing_ref is_password
read_password_ref auth v =
    if is_password auth && missing_ref v
    then raise config_error
    else elim v [ none ↦ ok none | some ref ↦ checked_ref ref ]

-- `int(entry.get(k, default))`
unfoldable pub read_int : Option Node → ℤ → Result ℤ
read_int none default = ok default
read_int (some v) default = to_int v

unfoldable pub entry_to_host : Text → Table → Result Host
entry_to_host alias e = do
  auth ← read_auth (get_key (codes "auth") e)
  password_ref ← read_password_ref auth (get_key (codes "password_ref") e)
  port ← read_int (get_key (codes "port") e) default_port
  log_retention_days ← read_int (get_key (codes "log_retention_days") e) default_log_retention_days
  ok (record {
    alias = alias;
    host = get_key (codes "host") e;
    user = get_key (codes "user") e;
    port = port;
    auth = auth;
    identity_file = get_key (codes "identity_file") e;
    password_ref = password_ref;
    log_retention_days = log_retention_days;
  })

-- `if v is not None: entry[k] = v`
unfoldable pub put_some : Text → Option Node → Table → Table
put_some k none e = e
put_some k (some v) e = put_key k v e

unfoldable pub same_int : ℤ → ℤ → Bool
same_int (pos n) (pos m) = n == m
same_int (negsuc n) (negsuc m) = n == m
same_int _ _ = false

-- `if n != default: entry[k] = n`
unfoldable pub put_int : Text → ℤ → ℤ → Table → Table
unfolding same_int
put_int k n default e = if same_int n default then e else put_key k (num n) e

unfoldable pub auth_text : Auth → Text
auth_text key = codes "key"
auth_text password = codes "password"

ref_node : Option Text → Option Node
ref_node none = none
ref_node (some s) = some (str s)

unfoldable pub host_to_entry : Host → Table
unfolding put_some put_int auth_text ref_node
host_to_entry h =
    let with_host = put_some (codes "host") h.host end in
    let with_user = put_some (codes "user") h.user with_host in
    let with_port = put_int (codes "port") h.port default_port with_user in
    let with_auth = put_key (codes "auth") (str (auth_text h.auth)) with_port in
    let with_file = put_some (codes "identity_file") h.identity_file with_auth in
    let with_ref = put_some (codes "password_ref") (ref_node h.password_ref) with_file in
    put_int (codes "log_retention_days") h.log_retention_days default_log_retention_days with_ref
