-- ===== src/Sessions/Manager/Invariant.antt =====
-- The invariant of the session registry under `run`, `wait`, `kill` and `reset` of sessions.py.
use tai_mcp_ssh.Prelude.{ℕ, Bool, true, false, Option, none, some, ◌≡◌, refl, Text, get}
use tai_mcp_ssh.Errors.{Exc, host_unreachable, Result, ok, raise, pending}
use tai_mcp_ssh.Process.{Env, modify, gets, lift}
use tai_mcp_ssh.Process.Keeps.{
  Keeps, Keeps-bind, Keeps-then, Keeps-pure, Keeps-throw, Keeps-if, Keeps-catch, Keeps-lift, Gives,
  Gives-pure, Gives-then, Gives-any, Post,
}
use tai_mcp_ssh.Process.Frame.{Keeps-Quiet, On-ask, On-record_event}
use tai_mcp_ssh.Ssh.Connection.Frame.{run-Quiet, home_dir-Quiet}
use tai_mcp_ssh.Ssh.Pool.Frame.{get_conn-Quiet}
use tai_mcp_ssh.Sessions.Id.{parse_session_id}
use tai_mcp_ssh.Sessions.State.{SessionState}
use tai_mcp_ssh.Sessions.State.Registry.{
  Found, IsSane, IsRunning, running, Registry-get, Registry-remove, new_state-IsSane,
}
use tai_mcp_ssh.Sessions.Poll.Registry.{Sane, Live, store-Gives, clear_state-Keeps, poll-Keeps}
use tai_mcp_ssh.Sessions.Manager.{
  forget, send_command, state_or_new, assigned, try_send, audit_created, start_command,
  refuse_or_start, forget_unreachable, run, idle_or_poll, wait, not_killed, kill, reset_log,
  reset_state, reset,
}

forget-Keeps : (sid : Text) → Keeps Sane (forget sid)
unfolding forget modify
forget-Keeps sid = record { at = λ s h. record { holds = Registry-remove sid s.sessions h.holds } }

lookup-Gives : (sid : Text) → Gives Sane (Found sid) (gets (λ s. get sid s.sessions))
unfolding gets
lookup-Gives sid = record { at = λ s h. (h, Registry-get sid s.sessions h.holds) }

parse-Gives :
    (sid : Text) → Gives Sane (λ p. parse_session_id sid ≡ ok p) (lift (parse_session_id sid))
unfolding lift
parse-Gives sid = record { at = λ s h. (h, known (parse_session_id sid) refl) }
  where
    known :
        (r : Result (Text × Text))
        → parse_session_id sid ≡ r
        → Post (λ p. parse_session_id sid ≡ ok p) r
    known (ok p) e = e
    known (raise x) e = tt
    known pending e = tt

send_command-Keeps :
    (env : Env) (id : ℕ) (name log_path log_id command : Text)
    → Keeps Sane (send_command env id name log_path log_id command)
unfolding send_command
send_command-Keeps env id name log_path log_id command =
    Keeps-bind _ _ (Keeps-Quiet (run-Quiet env id _ _ _)) (λ c.
      Keeps-bind _ _ (Keeps-Quiet (run-Quiet env id _ _ _))
        (λ _. Keeps-bind _ _ (Keeps-Quiet (run-Quiet env id _ _ _)) (λ _. Keeps-pure _)))

try_send-Keeps :
    (env : Env) (id : ℕ) (name log_path log_id command sid : Text) (st : SessionState)
    → IsSane sid st
    → Keeps Sane (try_send env id name log_path log_id command st)
unfolding try_send
try_send-Keeps env id name log_path log_id command sid st h =
    Keeps-catch _ _ (send_command-Keeps env id name log_path log_id command)
      (λ e. Keeps-bind _ _ (clear_state-Keeps env sid st h) (λ _. Keeps-throw e))

audit_created-On : (b : Bool) (host sid : Text) → Keeps Sane (audit_created b host sid)
unfolding audit_created
audit_created-On true host sid = On-record_event _ _ _
audit_created-On false host sid = Keeps-pure tt

assigned-Live :
    (log_id log_path command : Text) (reason : Option Text) (now : ℕ) (sid : Text)
    (st : SessionState)
    → IsSane sid st
    → Live sid (assigned log_id log_path command reason now st)
unfolding assigned
assigned-Live log_id log_path command reason now sid st h = (
  record {
    registered = h.registered;
    parsed = h.parsed;
    phase = running live;
    log = record {
      raw = h.log.raw;
      counted = h.log.counted;
      decoded = h.log.decoded;
      scanned = h.log.scanned;
    };
  },
  live,
)
  where
    live : IsRunning (assigned log_id log_path command reason now st)
    live = record {
      log_id = log_id;
      log_path = log_path;
      started_at = now;
      command = command;
      has_id = refl;
      has_path = refl;
      has_start = refl;
      has_command = refl;
    }

state_or_new-Gives :
    (env : Env) (sid host name : Text) (o : Option SessionState)
    → parse_session_id sid ≡ ok (host, name)
    → Found sid o
    → Gives Sane (IsSane sid) (state_or_new env sid host name o)
unfolding state_or_new
state_or_new-Gives env sid host name (some st) e h = Gives-pure (IsSane sid) st h
state_or_new-Gives env sid host name none e h =
    Gives-then (IsSane sid) _ _ (Gives-any _ (On-ask _)) (λ now _.
      store-Gives (IsSane sid) sid _ (new_state-IsSane now sid host name e)
        (new_state-IsSane now sid host name e))

start_command-Keeps :
    (env : Env) (id fuel timeout : ℕ) (sid host name command : Text) (reason : Option Text)
    (o : Option SessionState)
    → parse_session_id sid ≡ ok (host, name)
    → Found sid o
    → Keeps Sane (start_command env id fuel timeout sid host name command reason o)
unfolding start_command
start_command-Keeps env id fuel timeout sid host name command reason o e h =
    Keeps-then {R = IsSane sid} _ _ (state_or_new-Gives env sid host name o e h) (λ st hst.
      Keeps-bind _ _ (On-ask _) (λ log_id. Keeps-bind _ _ (Keeps-Quiet (home_dir-Quiet id)) (λ home.
        Keeps-bind _ _ (On-ask _) (λ now.
          Keeps-then {R = IsSane sid} _ _
            (store-Gives (IsSane sid) sid _ (assigned-Live log_id _ command reason now sid st hst).0
              (assigned-Live log_id _ command reason now sid st hst).0)
            (λ st₁ h₁.
              Keeps-bind _ _ (try_send-Keeps env id name _ log_id command sid st₁ h₁) (λ created.
                Keeps-bind _ _ (audit_created-On created host sid)
                  (λ _. poll-Keeps env id fuel timeout _ sid st₁ h₁)))))))

refuse_or_start-Keeps :
    (env : Env) (id fuel timeout : ℕ) (sid host name command : Text) (reason : Option Text)
    (o : Option SessionState)
    → parse_session_id sid ≡ ok (host, name)
    → Found sid o
    → Keeps Sane (refuse_or_start env id fuel timeout sid host name command reason o)
unfolding refuse_or_start
refuse_or_start-Keeps env id fuel timeout sid host name command reason none e h =
    start_command-Keeps env id fuel timeout sid host name command reason none e h
refuse_or_start-Keeps env id fuel timeout sid host name command reason (some st) e h =
    Keeps-if _ _ _ (Keeps-pure _)
      (start_command-Keeps env id fuel timeout sid host name command reason (some st) e h)

forget_unreachable-Keeps : (sid : Text) (e : Exc) → Keeps Sane (forget_unreachable sid e)
unfolding forget_unreachable
forget_unreachable-Keeps sid host_unreachable =
    Keeps-bind _ _ (forget-Keeps sid) (λ _. Keeps-throw _)
forget_unreachable-Keeps sid e = Keeps-throw _

pub run-Keeps :
    (env : Env) (fuel timeout : ℕ) (sid command : Text) (reason : Option Text)
    → Keeps Sane (run env fuel timeout sid command reason)
unfolding run
run-Keeps env fuel timeout sid command reason =
    Keeps-then {R = λ p. parse_session_id sid ≡ ok p} _ _ (parse-Gives sid) (λ p e.
      Keeps-catch _ _
        (Keeps-bind _ _ (Keeps-Quiet (get_conn-Quiet env p.0)) (λ id.
          Keeps-then {R = Found sid} _ _ (lookup-Gives sid)
            (λ o h. refuse_or_start-Keeps env id fuel timeout sid p.0 p.1 command reason o e h)))
        (forget_unreachable-Keeps sid))

idle_or_poll-Keeps :
    (env : Env) (id fuel timeout : ℕ) (sid : Text) (o : Option SessionState)
    → Found sid o
    → Keeps Sane (idle_or_poll env id fuel timeout sid o)
unfolding idle_or_poll
idle_or_poll-Keeps env id fuel timeout sid none h = Keeps-pure _
idle_or_poll-Keeps env id fuel timeout sid (some st) h =
    Keeps-if _ _ _ (poll-Keeps env id fuel timeout _ sid st h) (Keeps-pure _)

pub wait-Keeps :
    (env : Env) (fuel timeout : ℕ) (sid : Text) → Keeps Sane (wait env fuel timeout sid)
unfolding wait
wait-Keeps env fuel timeout sid = Keeps-bind _ _ (Keeps-lift _) (λ p.
    Keeps-catch _ _
      (Keeps-bind _ _ (Keeps-Quiet (get_conn-Quiet env p.0)) (λ id.
        Keeps-then {R = Found sid} _ _ (lookup-Gives sid)
          (λ o h. idle_or_poll-Keeps env id fuel timeout sid o h)))
      (forget_unreachable-Keeps sid))

not_killed-Keeps : (e : Exc) → Keeps Sane (not_killed e)
unfolding not_killed
not_killed-Keeps host_unreachable = Keeps-pure _
not_killed-Keeps e = Keeps-throw _

pub kill-Keeps : (env : Env) (sid : Text) → Keeps Sane (kill env sid)
unfolding kill
kill-Keeps env sid = Keeps-bind _ _ (Keeps-lift _) (λ p.
    Keeps-bind _ _
      (Keeps-catch _ _
        (Keeps-bind _ _ (Keeps-Quiet (get_conn-Quiet env p.0))
          (λ id. Keeps-bind _ _ (Keeps-Quiet (run-Quiet env id _ _ _)) (λ c. Keeps-pure _)))
        not_killed-Keeps)
      (λ killed.
        Keeps-bind _ _ (forget-Keeps sid)
          (λ _. Keeps-bind _ _ (On-record_event _ _ _) (λ _. Keeps-pure _))))

reset_log-Keeps :
    (env : Env) (sid : Text) (st : SessionState) (o : Option Text)
    → IsSane sid st
    → Keeps Sane (reset_log env sid st o)
unfolding reset_log
reset_log-Keeps env sid st none h = Keeps-pure _
reset_log-Keeps env sid st (some log_id) h =
    Keeps-bind _ _ (On-record_event _ _ _)
      (λ _. Keeps-bind _ _ (clear_state-Keeps env sid st h) (λ _. Keeps-pure _))

reset_state-Keeps :
    (env : Env) (sid : Text) (o : Option SessionState)
    → Found sid o
    → Keeps Sane (reset_state env sid o)
unfolding reset_state
reset_state-Keeps env sid none h = Keeps-pure _
reset_state-Keeps env sid (some st) h = reset_log-Keeps env sid st st.log_id h

pub reset-Keeps : (env : Env) (sid : Text) → Keeps Sane (reset env sid)
unfolding reset
reset-Keeps env sid =
    Keeps-bind _ _ (Keeps-lift _) (λ p.
      Keeps-then {R = Found sid} _ _ (lookup-Gives sid) (λ o h. reset_state-Keeps env sid o h))
