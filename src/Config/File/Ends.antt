-- ===== src/Config/File/Ends.antt =====
-- How `load_config` ends: with a configuration, or with an exception that is not marked as audited.
use tai_mcp_ssh.Prelude.{
  Bool, true, false, Option, none, some, Text, codes, Dict, put, refl, if◌then◌else◌,
}
use tai_mcp_ssh.Prelude.Int.{ℤ, pos, negsuc}
use tai_mcp_ssh.Errors.{
  config_error, Result, IsCalm, ok-IsCalm, raise-IsCalm, if-IsCalm, >>=-IsCalm,
}
use tai_mcp_ssh.Config.Node.{
  Node, Table, str, num, bool, float, moment, table, array, end, entry, get_key, is_falsy, is_text,
  to_int, or_value, or_other,
}
use tai_mcp_ssh.Config.Forbidden.{reject_forbidden_keys, reject_forbidden_keys_lem, rejected_if}
use tai_mcp_ssh.Config.Entry.{
  Host, Auth, key, password, read_auth, checked_ref, read_password_ref, read_int, entry_to_host,
}
use tai_mcp_ssh.Config.File.{
  Toml, table_of, section, read_hosts, read_idle, config_of, parsed, load_config,
}

rejected_if-IsCalm : (b : Bool) → IsCalm (rejected_if b)
rejected_if-IsCalm true = raise-IsCalm _ refl
rejected_if-IsCalm false = ok-IsCalm _

reject-IsCalm : (v : Node) → IsCalm (reject_forbidden_keys v)
reject-IsCalm v = rw (reject_forbidden_keys_lem v) (rejected_if-IsCalm _)

table_of-IsCalm : (v : Node) → IsCalm (table_of v)
unfolding table_of
table_of-IsCalm (table t) = ok-IsCalm _
table_of-IsCalm (str s) = raise-IsCalm _ refl
table_of-IsCalm (num n) = raise-IsCalm _ refl
table_of-IsCalm (bool b) = raise-IsCalm _ refl
table_of-IsCalm (float n b) = raise-IsCalm _ refl
table_of-IsCalm moment = raise-IsCalm _ refl
table_of-IsCalm (array vs) = raise-IsCalm _ refl

section-IsCalm : (name : Text) (raw : Table) → IsCalm (section name raw)
unfolding section
section-IsCalm name raw = by_value (get_key name raw)
  where
    by_value :
        (o : Option Node)
        → IsCalm (elim o [
          | none ↦ Result.ok end
          | some v ↦ if is_falsy v then Result.ok end else table_of v
        ])
    by_value none = ok-IsCalm _
    by_value (some v) = if-IsCalm (is_falsy v) _ _ (ok-IsCalm _) (table_of-IsCalm v)

or_value-IsCalm : (o : Option ℤ) → IsCalm (or_value o)
unfolding or_value
or_value-IsCalm none = raise-IsCalm _ refl
or_value-IsCalm (some n) = ok-IsCalm _

or_other-IsCalm : (o : Option ℤ) → IsCalm (or_other o)
unfolding or_other
or_other-IsCalm none = raise-IsCalm _ refl
or_other-IsCalm (some n) = ok-IsCalm _

read_int-IsCalm : (o : Option Node) (default : ℤ) → IsCalm (read_int o default)
unfolding read_int to_int
read_int-IsCalm none default = ok-IsCalm _
read_int-IsCalm (some (num n)) default = ok-IsCalm _
read_int-IsCalm (some (bool b)) default = ok-IsCalm _
read_int-IsCalm (some (float n b)) default = or_other-IsCalm n
read_int-IsCalm (some (str s)) default = or_value-IsCalm _
read_int-IsCalm (some moment) default = raise-IsCalm _ refl
read_int-IsCalm (some (table t)) default = raise-IsCalm _ refl
read_int-IsCalm (some (array vs)) default = raise-IsCalm _ refl

read_auth-IsCalm : (o : Option Node) → IsCalm (read_auth o)
unfolding read_auth
read_auth-IsCalm none = ok-IsCalm _
read_auth-IsCalm (some v) = if-IsCalm (is_text (codes "key") v) _ _ (ok-IsCalm key) (
    if-IsCalm (is_text (codes "password") v) _ _ (ok-IsCalm password)
      (raise-IsCalm config_error refl))

checked_ref-IsCalm : (v : Node) → IsCalm (checked_ref v)
unfolding checked_ref
checked_ref-IsCalm (str s) = if-IsCalm _ _ _ (ok-IsCalm _) (raise-IsCalm _ refl)
checked_ref-IsCalm (num n) = raise-IsCalm _ refl
checked_ref-IsCalm (bool b) = raise-IsCalm _ refl
checked_ref-IsCalm (float n b) = raise-IsCalm _ refl
checked_ref-IsCalm moment = raise-IsCalm _ refl
checked_ref-IsCalm (table t) = raise-IsCalm _ refl
checked_ref-IsCalm (array vs) = raise-IsCalm _ refl

read_password_ref-IsCalm : (auth : Auth) (o : Option Node) → IsCalm (read_password_ref auth o)
unfolding read_password_ref
read_password_ref-IsCalm auth none = if-IsCalm _ _ _ (raise-IsCalm _ refl) (ok-IsCalm _)
read_password_ref-IsCalm auth (some v) =
    if-IsCalm _ _ _ (raise-IsCalm _ refl) (checked_ref-IsCalm v)

entry_to_host-IsCalm : (alias : Text) (e : Table) → IsCalm (entry_to_host alias e)
unfolding entry_to_host
entry_to_host-IsCalm alias e = >>=-IsCalm _ _ (read_auth-IsCalm _) (λ auth.
    >>=-IsCalm _ _ (read_password_ref-IsCalm auth _) (λ ref.
      >>=-IsCalm _ _ (read_int-IsCalm _ _)
        (λ port. >>=-IsCalm _ _ (read_int-IsCalm _ _) (λ days. (ok-IsCalm _)))))

read_hosts-IsCalm : (t : Table) (hosts : Dict Host) → IsCalm (read_hosts t hosts)
unfolding read_hosts
read_hosts-IsCalm end hosts = ok-IsCalm _
read_hosts-IsCalm (entry alias v t) hosts = >>=-IsCalm _ _ (table_of-IsCalm v) (λ e.
    >>=-IsCalm _ _ (entry_to_host-IsCalm alias e) (λ h. read_hosts-IsCalm t (put alias h hosts)))

read_idle-IsCalm : (o : Option Node) → IsCalm (read_idle o)
unfolding read_idle
read_idle-IsCalm none = ok-IsCalm _
read_idle-IsCalm (some (num (pos n))) = ok-IsCalm _
read_idle-IsCalm (some (num (negsuc n))) = raise-IsCalm _ refl
read_idle-IsCalm (some (bool b)) = raise-IsCalm _ refl
read_idle-IsCalm (some (float n b)) = raise-IsCalm _ refl
read_idle-IsCalm (some (str s)) = raise-IsCalm _ refl
read_idle-IsCalm (some moment) = raise-IsCalm _ refl
read_idle-IsCalm (some (table t)) = raise-IsCalm _ refl
read_idle-IsCalm (some (array vs)) = raise-IsCalm _ refl

config_of-IsCalm : (raw : Table) → IsCalm (config_of raw)
unfolding config_of
config_of-IsCalm raw = >>=-IsCalm _ _ (reject-IsCalm (table raw)) (λ _.
    >>=-IsCalm _ _ (section-IsCalm _ raw) (λ hosts_table.
      >>=-IsCalm _ _ (read_hosts-IsCalm hosts_table _) (λ hosts.
        >>=-IsCalm _ _ (section-IsCalm _ raw) (λ audit_table.
          >>=-IsCalm _ _ (read_int-IsCalm _ _) (λ days.
            >>=-IsCalm _ _ (section-IsCalm _ raw)
              (λ sessions_table. >>=-IsCalm _ _ (read_idle-IsCalm _) (λ idle. (ok-IsCalm _))))))))

parsed-IsCalm : (o : Option Table) → IsCalm (parsed o)
unfolding parsed
parsed-IsCalm none = raise-IsCalm _ refl
parsed-IsCalm (some t) = ok-IsCalm _

pub load_config-IsCalm : (toml : Toml) (file : Option Text) → IsCalm (load_config toml file)
unfolding load_config
load_config-IsCalm toml none = ok-IsCalm _
load_config-IsCalm toml (some text) = >>=-IsCalm _ _ (parsed-IsCalm _) (λ raw. config_of-IsCalm raw)
