-- ===== src/Sessions/Manager.antt =====
-- `SessionManager` of sessions.py: `run`, `wait`, `kill`, `reset`, `list_sessions`, and what they
-- call.
pub mod Invariant
pub mod Outcome
pub mod Termination
pub mod Kill
pub mod Reset
use tai_mcp_ssh.Prelude.{
  ℕ, zero, suc, ◌+◌, Bool, true, false, not, ◌&&◌, ◌||◌, Option, none, some, List, [], ◌∷◌, ◌++◌,
  ◌==◌, if◌then◌else◌, Text, codes, map, Dict, get, put, remove, is_some,
}
use tai_mcp_ssh.Str.Chars.{is_part}
use tai_mcp_ssh.Errors.{Exc, host_unreachable}
use tai_mcp_ssh.Audit.Value.{text, flag}
use tai_mcp_ssh.Process.{
  Env, Process, M, pure, throw, lift, gets, ask, modify, catch, record_event, ◌>>=◌, ◌>>◌,
}
use tai_mcp_ssh.Ssh.Connection.{run as run_command, as_str, ok_status, home_dir}
use tai_mcp_ssh.Ssh.Pool.{get_conn}
use tai_mcp_ssh.Sessions.Id.{parse_session_id}
use tai_mcp_ssh.Sessions.Prompt.{done, busy}
use tai_mcp_ssh.Sessions.State.{RunResult, SessionState, new_state}
use tai_mcp_ssh.Sessions.Commands.{
  ensure_command, type_command, enter_command, kill_session_command, log_path_of,
}
use tai_mcp_ssh.Sessions.Poll.{store, clear_state, poll}

-- `_forget`
unfoldable pub forget : Text → M (Unit {0})
forget sid = modify λ s. record s { sessions = remove sid s.sessions }

or_empty : Option Text → Text
or_empty none = []
or_empty (some s) = s

unfoldable pub busy_result : SessionState → RunResult
unfolding or_empty
busy_result st = record {
  session_id = st.session_id;
  status = busy;
  head = [];
  tail = [];
  bytes = 0;
  truncated = false;
  log_id = or_empty st.log_id;
  log_path = or_empty st.log_path;
  exit = none;
  attach_hint = none;
  prompt = none;
}

unfoldable pub idle_result : Text → RunResult
idle_result sid = record {
  session_id = sid;
  status = done;
  head = [];
  tail = [];
  bytes = 0;
  truncated = false;
  log_id = [];
  log_path = [];
  exit = none;
  attach_hint = none;
  prompt = none;
}

-- `_send_command`: whether the tmux session had to be created
unfoldable pub send_command : Env → ℕ → Text → Text → Text → Text → M Bool
send_command env id name log_path log_id command = do
  c ← run_command env id (ensure_command name log_path) true false
  run_command env id (type_command name log_id command) true false
  run_command env id (enter_command name) true false
  pure (is_part (codes "__TAI_CREATED__") (as_str c.stdout))

-- whether a session is mid-command
unfoldable pub is_busy : Option SessionState → Bool
is_busy none = false
is_busy (some st) = is_some st.log_id

-- `state`, or a new one that is registered
state_or_new : Env → Text → Text → Text → Option SessionState → M SessionState
state_or_new env sid host name (some st) = pure st
state_or_new env sid host name none = do now ← ask env.now; store (new_state now sid host name)

-- the fields of the command that is about to run
unfoldable pub assigned : Text → Text → Text → Option Text → ℕ → SessionState → SessionState
assigned log_id log_path command reason now st = record st {
  log_id = some log_id;
  log_path = some log_path;
  command = some command;
  reason = reason;
  started_at = some now;
  last_used_at = now;
}

-- the send, which is rolled back to idle if it raises
unfoldable pub try_send : Env → ℕ → Text → Text → Text → Text → SessionState → M Bool
try_send env id name log_path log_id command st =
    catch (send_command env id name log_path log_id command) λ e. do clear_state env st; throw e

audit_created : Bool → Text → Text → M (Unit {0})
audit_created false host sid = pure tt
audit_created true host sid =
    record_event (codes "_session_create") (some host) ((codes "session", text sid) ∷ [])

-- a command in a session that is idle or new
unfoldable pub start_command :
    Env → ℕ → ℕ → ℕ → Text → Text → Text → Text → Option Text → Option SessionState → M RunResult
unfolding state_or_new audit_created
start_command env id fuel timeout sid host name command reason found = do
  st ← state_or_new env sid host name found
  log_id ← ask env.new_ulid
  home ← home_dir id
  let log_path = log_path_of home log_id
  now ← ask env.now
  st' ← store (assigned log_id log_path command reason now st)
  created ← try_send env id name log_path log_id command st'
  audit_created created host sid
  poll env id fuel timeout (codes "session_run") st'

refuse_or_start :
    Env → ℕ → ℕ → ℕ → Text → Text → Text → Text → Option Text → Option SessionState → M RunResult
refuse_or_start env id fuel timeout sid host name command reason none =
    start_command env id fuel timeout sid host name command reason none
refuse_or_start env id fuel timeout sid host name command reason (some st) =
    if is_some st.log_id
    then pure (busy_result st)
    else start_command env id fuel timeout sid host name command reason (some st)

-- `except HostUnreachable: self._forget(session_id); raise`
forget_unreachable : Text → Exc → M RunResult
forget_unreachable sid host_unreachable = do forget sid; throw host_unreachable
forget_unreachable sid e = throw e

-- `run`
unfoldable pub run : Env → ℕ → ℕ → Text → Text → Option Text → M RunResult
unfolding refuse_or_start forget_unreachable
run env fuel timeout sid command reason = do
  (host, name) ← lift (parse_session_id sid)
  catch
      (do
        id ← get_conn env host
        found ← gets (λ s. get sid s.sessions)
        refuse_or_start env id fuel timeout sid host name command reason found)
      (forget_unreachable sid)

idle_or_poll : Env → ℕ → ℕ → ℕ → Text → Option SessionState → M RunResult
idle_or_poll env id fuel timeout sid none = pure (idle_result sid)
idle_or_poll env id fuel timeout sid (some st) =
    if is_some st.log_id
    then poll env id fuel timeout (codes "session_wait") st
    else pure (idle_result sid)

-- `wait`
unfoldable pub wait : Env → ℕ → ℕ → Text → M RunResult
unfolding idle_or_poll forget_unreachable
wait env fuel timeout sid = do
  (host, name) ← lift (parse_session_id sid)
  catch
      (do
        id ← get_conn env host
        found ← gets (λ s. get sid s.sessions)
        idle_or_poll env id fuel timeout sid found)
      (forget_unreachable sid)

not_killed : Exc → M Bool
not_killed host_unreachable = pure false
not_killed e = throw e

-- `kill`: what it returns under `killed`
unfoldable pub kill : Env → Text → M Bool
unfolding not_killed
kill env sid = do
  (host, name) ← lift (parse_session_id sid)
  killed ←
      catch
        (do
          id ← get_conn env host
          c ← run_command env id (kill_session_command name) false false
          pure (ok_status c.status))
        not_killed
  forget sid
  record_event (codes "session_kill") (some host)
      ((codes "session", text sid) ∷ (codes "killed", flag killed) ∷ [])
  pure killed

reset_log : Env → Text → SessionState → Option Text → M Bool
reset_log env sid st none = pure false
reset_log env sid st (some log_id) = do
  record_event (codes "session_reset") (some st.host)
      ((codes "session", text sid) ∷ (codes "log_id", text log_id) ∷ [])
  clear_state env st
  pure true

reset_state : Env → Text → Option SessionState → M Bool
unfolding reset_log
reset_state env sid none = pure false
reset_state env sid (some st) = reset_log env sid st st.log_id

-- `reset`: what it returns under `reset`
unfoldable pub reset : Env → Text → M Bool
unfolding reset_state
reset env sid = do
  lift (parse_session_id sid)
  found ← gets (λ s. get sid s.sessions)
  reset_state env sid found

pub record Summary : Type 0 where
  pub session_id : Text
  pub host : Text
  pub name : Text
  pub created_at : ℕ
  pub last_used_at : ℕ
  pub is_busy : Bool

unfoldable pub summary : SessionState → Summary
summary st = record {
  session_id = st.session_id;
  host = st.host;
  name = st.name;
  created_at = st.created_at;
  last_used_at = st.last_used_at;
  is_busy = is_some st.log_id;
}

-- `list_sessions`; the times are not yet printed
unfoldable pub list_sessions : M (List Summary)
unfolding summary
list_sessions = gets λ s. map (λ e. summary e.1) s.sessions
