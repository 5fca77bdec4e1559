-- ===== src/Sessions/Manager/Reset.antt =====
-- What `reset` of sessions.py leaves behind.
use tai_mcp_ssh.Prelude.{
  Bool, false, Option, none, some, ◌≡◌, refl, Text, Dict, get, put, get-put, text_eq_iff,
}
use tai_mcp_ssh.Errors.{Result, ok}
use tai_mcp_ssh.Process.{Process, Env, lift, pure, gets, ask, modify, record_event, ◌>>=◌}
use tai_mcp_ssh.Sessions.Id.{parse_session_id}
use tai_mcp_ssh.Sessions.State.{SessionState, cleared}
use tai_mcp_ssh.Sessions.State.Registry.{Registry, Found, Registry-get}
use tai_mcp_ssh.Sessions.Poll.{store, clear_state}
use tai_mcp_ssh.Sessions.Manager.{is_busy, reset_log, reset_state, reset}

-- what a `reset` that found `o` does
abbrev Reset : Text → Option SessionState → Process → Result Bool × Process → Type 0
Reset sid o s r =
    (r.0 ≡ ok (is_busy o)) × (is_busy (get sid r.1.sessions) ≡ false) × (r.1.sent ≡ s.sent)

stored_idle :
    (k sid : Text) (st : SessionState) (d : Dict SessionState)
    → k ≡ sid
    → st.log_id ≡ none
    → is_busy (get sid (put k st d)) ≡ false
unfolding is_busy
stored_idle k sid st d same idle =
    rw (same, get-put sid sid st d, (text_eq_iff sid sid).1 refl, idle) refl

reset_log-Reset :
    (env : Env) (sid : Text) (st : SessionState) (s : Process) (l : Option Text)
    → get sid s.sessions ≡ some st
    → st.session_id ≡ sid
    → st.log_id ≡ l
    → Reset sid (some st) s (reset_log env sid st l s)
unfolding reset_log is_busy record_event clear_state store ask modify pure ◌>>=◌ cleared
reset_log-Reset env sid st s none found same e = rw (e, found, e) (refl, refl, refl)
reset_log-Reset env sid st s (some log_id) found same e =
    rw e (refl, stored_idle st.session_id sid _ s.sessions same refl, refl)

-- A `reset` of an id that parses, in a sane registry, returns whether a command was in flight; after
-- it the session is idle or still unknown, and nothing was sent to a host.
pub reset_lem :
    (env : Env) (sid : Text) (s : Process) (p : Text × Text)
    → parse_session_id sid ≡ ok p
    → Registry s.sessions
    → ((reset env sid s).0 ≡ ok (is_busy (get sid s.sessions)))
      × (is_busy (get sid (reset env sid s).1.sessions) ≡ false)
      × ((reset env sid s).1.sent ≡ s.sent)
unfolding reset lift gets ◌>>=◌ reset_state pure is_busy
reset_lem env sid s p parsed sane =
    rw parsed (by_found (get sid s.sessions) refl (Registry-get sid s.sessions sane))
  where
    by_found :
        (o : Option SessionState)
        → get sid s.sessions ≡ o
        → Found sid o
        → Reset sid o s (reset_state env sid o s)
    by_found none e h = (refl, rw e refl, refl)
    by_found (some st) e h = reset_log-Reset env sid st s st.log_id e h.registered refl
