-- ===== src/Sessions/Manager/Outcome.antt =====
-- What `run` and `wait` of sessions.py leave behind, where they refuse, find nothing or fail.
use tai_mcp_ssh.Prelude.{
  ℕ, false, Option, none, some, ◌≡◌, refl, ap, ◌∙◌, sym, Text, get, remove, get-remove, text_eq_iff,
  arith,
}
use tai_mcp_ssh.Errors.{Exc, host_unreachable, ok, raise}
use tai_mcp_ssh.Process.{Process, Env, M, lift, gets, pure, throw, catch, modify, ◌>>=◌}
use tai_mcp_ssh.Process.Run.{>>=-returns, catch-returns, catch-raised}
use tai_mcp_ssh.Ssh.Pool.{get_conn}
use tai_mcp_ssh.Ssh.Pool.Frame.{get_conn-Quiet}
use tai_mcp_ssh.Sessions.Id.{parse_session_id}
use tai_mcp_ssh.Sessions.State.{RunResult, SessionState}
use tai_mcp_ssh.Sessions.Manager.{
  forget, busy_result, idle_result, refuse_or_start, forget_unreachable, run, idle_or_poll, wait,
  is_busy,
}

pub forgotten : (sid : Text) (s : Process) → get sid (remove sid s.sessions) ≡ none
forgotten sid s = ground (arith, get-remove sid sid s.sessions, text_eq_iff sid sid)

forget_unreachable-forgets :
    (sid : Text) (e : Exc) (s : Process)
    → (forget_unreachable sid e s).0 ≡ raise host_unreachable
    → get sid (forget_unreachable sid e s).1.sessions ≡ none
unfolding forget_unreachable forget modify throw ◌>>=◌
forget_unreachable-forgets sid host_unreachable s h = forgotten sid s
forget_unreachable-forgets sid e s h = absurd (ground (arith, h))

-- the shape of `run` and `wait`
forgets :
    (sid : Text) (k : Text × Text → M RunResult) (p : Text × Text) (s : Process)
    → parse_session_id sid ≡ ok p
    → ((lift (parse_session_id sid) >>= λ q. catch (k q) (forget_unreachable sid)) s).0
      ≡ raise host_unreachable
    → get sid
        ((lift (parse_session_id sid) >>= λ q. catch (k q) (forget_unreachable sid)) s).1.sessions
      ≡ none
unfolding lift ◌>>=◌
forgets sid k p s e = rw e (λ h.
    let (x, (t, (g, w))) = catch-raised (k p) (forget_unreachable sid) s host_unreachable h in
    rw w (forget_unreachable-forgets sid x t g))

-- If `run` raises `HostUnreachable` on a session id that parses, the session is no longer registered,
-- whatever was done before.
pub run-forgets :
    (env : Env) (fuel timeout : ℕ) (sid command : Text) (reason : Option Text) (s : Process)
    (p : Text × Text)
    → parse_session_id sid ≡ ok p
    → (run env fuel timeout sid command reason s).0 ≡ raise host_unreachable
    → get sid (run env fuel timeout sid command reason s).1.sessions ≡ none
unfolding run
run-forgets env fuel timeout sid command reason s p = forgets sid _ p s

-- If `wait` raises `HostUnreachable` on a session id that parses, the session is no longer
-- registered.
pub wait-forgets :
    (env : Env) (fuel timeout : ℕ) (sid : Text) (s : Process) (p : Text × Text)
    → parse_session_id sid ≡ ok p
    → (wait env fuel timeout sid s).0 ≡ raise host_unreachable
    → get sid (wait env fuel timeout sid s).1.sessions ≡ none
unfolding wait
wait-forgets env fuel timeout sid s p = forgets sid _ p s

-- what a registry says of one session outlives a connection
still_found :
    (env : Env) (alias sid : Text) (o : Option SessionState) (s : Process)
    → get sid s.sessions ≡ o
    → get sid (get_conn env alias s).1.sessions ≡ o
still_found env alias sid o s h = ap (get sid) ((get_conn-Quiet env alias).same s) ∙ h

-- A `run` on a session that has a command in flight, on a host that can be connected to, returns the
-- busy result, which names the log of that command, and leaves the process as the connection left it:
-- no command is sent, no event is recorded and the session is not changed.
pub run-busy :
    (env : Env) (fuel timeout id : ℕ) (sid command : Text) (reason : Option Text) (s t : Process)
    (p : Text × Text) (st : SessionState) (log_id : Text)
    → parse_session_id sid ≡ ok p
    → get sid s.sessions ≡ some st
    → st.log_id ≡ some log_id
    → get_conn env p.0 s ≡ (ok id, t)
    → run env fuel timeout sid command reason s ≡ (ok (busy_result st), t)
unfolding run lift gets pure ◌>>=◌ refuse_or_start
run-busy env fuel timeout id sid command reason s t p st log_id parsed found busy connected =
    rw parsed (
      catch-returns _ _ s (busy_result st) t
        (>>=-returns (get_conn env p.0) _ s id t connected ∙ rw (still, busy) refl))
  where
    still : get sid t.sessions ≡ some st
    still = rw (sym (ap (λ r. r.1) connected)) (still_found env p.0 sid (some st) s found)

idle_or_poll-idle :
    (env : Env) (id fuel timeout : ℕ) (sid : Text) (o : Option SessionState) (s : Process)
    → is_busy o ≡ false
    → idle_or_poll env id fuel timeout sid o s ≡ (ok (idle_result sid), s)
unfolding idle_or_poll is_busy pure
idle_or_poll-idle env id fuel timeout sid none s h = refl
idle_or_poll-idle env id fuel timeout sid (some st) s h = rw h refl

-- A `wait` on a session that is idle, or that is not registered, on a host that can be connected to,
-- returns `done` with no output and no exit status, sends nothing and records nothing.
pub wait-idle :
    (env : Env) (fuel timeout id : ℕ) (sid : Text) (s t : Process) (p : Text × Text)
    → parse_session_id sid ≡ ok p
    → is_busy (get sid s.sessions) ≡ false
    → get_conn env p.0 s ≡ (ok id, t)
    → wait env fuel timeout sid s ≡ (ok (idle_result sid), t)
unfolding wait lift gets ◌>>=◌
wait-idle env fuel timeout id sid s t p parsed idle connected = rw parsed (
    catch-returns _ _ s (idle_result sid) t (
      >>=-returns (get_conn env p.0) _ s id t connected
      ∙ idle_or_poll-idle env id fuel timeout sid (get sid t.sessions) t (ap is_busy same ∙ idle)))
  where
    same : get sid t.sessions ≡ get sid s.sessions
    same = rw (sym (ap (λ r. r.1) connected)) (still_found env p.0 sid (get sid s.sessions) s refl)
