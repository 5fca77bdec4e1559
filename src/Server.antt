-- ===== src/Server.antt =====
-- `dispatch`, `_host_from_args` and `_dispatch_and_audit` of server.py. The SDK checks the arguments
-- of a call against the tool's schema, so each one is absent or of its type. Times are microseconds; a negative timeout is one of 0.
pub mod Frame
pub mod Audited
pub mod Reload
pub mod Registry
use tai_mcp_ssh.Prelude.{
  ℕ, suc, ◌+◌, Bool, true, false, not, ◌&&◌, ◌||◌, Option, none, some, List, [], ◌∷◌, ◌++◌, ◌==◌,
  if◌then◌else◌, Text, codes, text_eq, length, map, select, member, Dict, get, keys,
}
use tai_mcp_ssh.Prelude.Int.{ℤ, pos}
use tai_mcp_ssh.Errors.{
  Exc, Result, ok, raise, host_not_allowed, tmux_missing, keychain_unavailable, key_error,
  value_error, os_error, is_tai_error, audited,
}
use tai_mcp_ssh.Audit.Value.{Value, text, number}
use tai_mcp_ssh.Config.Node.{Node}
use tai_mcp_ssh.Config.Entry.{Host, Auth, key, password, same_int}
use tai_mcp_ssh.Config.File.{Config, load_config}
use tai_mcp_ssh.Process.{
  Env, Process, M, pure, throw, lift, gets, ask, modify, catch, record_event, ◌>>=◌, ◌>>◌,
}
use tai_mcp_ssh.Ssh.Pool.{update_hosts}
use tai_mcp_ssh.Services.{reload_hosts_from_disk}
use tai_mcp_ssh.Sessions.State.{RunResult}
use tai_mcp_ssh.Sessions.Manager.{Summary, run, wait, kill, reset, list_sessions}
use tai_mcp_ssh.Transfer.{TransferResult, put_file, get_file}

-- the arguments of the tool calls, by the schemas of all tools; a timeout is given in microseconds, and
-- one that is negative or not finite is not modelled
pub record Args : Type 0 where
  pub session_id : Option Text
  pub command : Option Text
  pub reason : Option Text
  pub timeout : Option ℕ
  pub host : Option Text
  pub local_path : Option Text
  pub remote_path : Option Text
  pub allow_outside : Option Bool

-- an entry of what `hosts` returns
pub record HostView : Type 0 where
  pub alias : Text
  pub host : Option Node
  pub user : Option Node
  pub port : ℤ
  pub auth : Auth

pub data Answer : Type 0 where
  host_views : List HostView → Answer
  summaries : List Summary → Answer
  run_result : RunResult → Answer
  was_killed was_reset : Bool → Answer
  transferred : TransferResult → Answer

unfoldable pub reload_counts : Text → ℕ × ℕ × ℕ → Dict Value
reload_counts status (added, removed, changed) =
    (codes "status", text status)
    ∷ (codes "added", number (pos added))
    ∷ (codes "removed", number (pos removed))
    ∷ (codes "changed", number (pos changed))
    ∷ []

-- the reload, which is audited and does not fail
unfoldable pub reload_and_audit : Env → M (Unit {0})
reload_and_audit env =
    catch
      (do
        counts ← reload_hosts_from_disk env
        record_event (codes "_hosts_reload") none (reload_counts (codes "ok") counts))
      (λ e. do
        error ← ask env.error_text
        record_event (codes "_hosts_reload") none
            (reload_counts (codes "error") (0, 0, 0) ++ (codes "error", text error) ∷ []))

unfoldable pub host_view : Text × Host → HostView
host_view (k, h) = record {
  alias = h.alias;
  host = h.host;
  user = h.user;
  port = h.port;
  auth = h.auth;
}

-- `args[k]`
unfoldable pub argument : Option Text → M Text
argument none = throw key_error
argument (some s) = pure s

abbrev pub default_timeout : ℕ
default_timeout = 30000000

unfoldable pub timeout_of : Option ℕ → ℕ
timeout_of none = default_timeout
timeout_of (some t) = t

is_given : Option Bool → Bool
is_given none = false
is_given (some b) = b

unfoldable pub hosts_tool : Env → M Answer
hosts_tool env = do
  reload_and_audit env
  hosts ← gets (λ s. s.config.hosts)
  pure (host_views (map host_view hosts))

unfoldable pub session_list_tool : M Answer
session_list_tool = do l ← list_sessions; pure (summaries l)

-- The fuel is enough where each outside call takes a microsecond or more.
unfoldable pub session_run_tool : Env → Args → M Answer
session_run_tool env args = do
  sid ← argument args.session_id
  command ← argument args.command
  r ← run env (suc (timeout_of args.timeout)) (timeout_of args.timeout) sid command args.reason
  pure (run_result r)

unfoldable pub session_wait_tool : Env → Args → M Answer
session_wait_tool env args = do
  sid ← argument args.session_id
  r ← wait env (suc (timeout_of args.timeout)) (timeout_of args.timeout) sid
  pure (run_result r)

unfoldable pub session_kill_tool : Env → Args → M Answer
session_kill_tool env args = do
  sid ← argument args.session_id
  killed ← kill env sid
  pure (was_killed killed)

unfoldable pub session_reset_tool : Env → Args → M Answer
session_reset_tool env args = do
  sid ← argument args.session_id
  done ← reset env sid
  pure (was_reset done)

unfoldable pub put_tool : Env → Args → M Answer
put_tool env args = do
  host ← argument args.host
  local_path ← argument args.local_path
  remote_path ← argument args.remote_path
  r ← put_file env host local_path remote_path args.reason
  pure (transferred r)

unfoldable pub get_tool : Env → Args → M Answer
unfolding is_given
get_tool env args = do
  host ← argument args.host
  remote_path ← argument args.remote_path
  r ← get_file env host remote_path args.local_path args.reason (is_given args.allow_outside)
  pure (transferred r)

-- `dispatch`
unfoldable pub dispatch : Env → Text → Args → M Answer
dispatch env name args =
    if text_eq name (codes "hosts")
    then hosts_tool env
    else if text_eq name (codes "session_list")
    then session_list_tool
    else if text_eq name (codes "session_run")
    then session_run_tool env args
    else if text_eq name (codes "session_wait")
    then session_wait_tool env args
    else if text_eq name (codes "session_kill")
    then session_kill_tool env args
    else if text_eq name (codes "session_reset")
    then session_reset_tool env args
    else if text_eq name (codes "put")
    then put_tool env args
    else if text_eq name (codes "get")
    then get_tool env args
    else throw value_error

-- what stands before the first slash, if there is one
before_slash : Text → Option Text
before_slash [] = none
before_slash (c ∷ s) =
    let rest = before_slash s in
    if c == b'/' then some [] else elim rest [ none ↦ none | some r ↦ some (c ∷ r) ]

host_of_session : Option Text → Option Text
unfolding before_slash
host_of_session none = none
host_of_session (some sid) = before_slash sid

-- `_host_from_args`
unfoldable pub host_from_args : Args → Option Text
unfolding host_of_session
host_from_args args = elim args.host [ some h ↦ some h | none ↦ host_of_session args.session_id ]

-- the record of a call that did not succeed
unfoldable pub audit_failure : Env → Text → Args → Text → M (Unit {0})
audit_failure env name args status = do
  error ← ask env.error_text
  record_event name (host_from_args args)
      ((codes "status", text status) ∷ (codes "error", text error) ∷ [])

-- `isinstance(exc, (HostNotAllowed, TmuxMissing, KeychainUnavailable))`
unfoldable pub is_rejection : Exc → Bool
is_rejection host_not_allowed = true
is_rejection tmux_missing = true
is_rejection keychain_unavailable = true
is_rejection _ = false

-- the `except` clauses of `_dispatch_and_audit`
unfoldable pub audit_and_raise : Env → Text → Args → Exc → M Answer
audit_and_raise env name args e =
    if is_rejection e
    then (do audit_failure env name args (codes "rejected"); throw e)
    else if is_tai_error e && audited e
    then throw e
    else (do audit_failure env name args (codes "error"); throw e)

-- `_dispatch_and_audit`
unfoldable pub dispatch_and_audit : Env → Text → Args → M Answer
dispatch_and_audit env name args = catch (dispatch env name args) (audit_and_raise env name args)
