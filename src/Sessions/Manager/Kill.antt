-- ===== src/Sessions/Manager/Kill.antt =====
-- What `kill` of sessions.py leaves behind.
use tai_mcp_ssh.Prelude.{
  Bool, none, some, List, [], ◌∷◌, ◌++◌, ◌≡◌, refl, ap, ◌∙◌, sym, Text, get, codes,
}
use tai_mcp_ssh.Errors.{ok, ok-injective}
use tai_mcp_ssh.Audit.Value.{text, flag, Event}
use tai_mcp_ssh.Process.{Process, Env, M, lift, pure, modify, record_event, ◌>>=◌, ◌>>◌}
use tai_mcp_ssh.Process.Run.{>>=-returns, >>=-returned}
use tai_mcp_ssh.Sessions.Id.{parse_session_id}
use tai_mcp_ssh.Sessions.Manager.{forget, kill}
use tai_mcp_ssh.Sessions.Manager.Outcome.{forgotten}

abbrev pub kill_event : Text → Text → Bool → Event
kill_event sid host killed = record {
  tool = codes "session_kill";
  host = some host;
  fields = (codes "session", text sid) ∷ (codes "killed", flag killed) ∷ [];
}

-- what a `kill` that returned `b` has done
abbrev pub Killed : Text → Text → Bool → Process → Type 0
Killed sid host b t =
    (get sid t.sessions ≡ none)
    × ((before : List Event) × (t.audit ≡ before ++ kill_event sid host b ∷ []))

abbrev kill_rest : Text → Text → Bool → M Bool
kill_rest sid host k =
    forget sid
    >> (record_event (codes "session_kill") (some host)
          ((codes "session", text sid) ∷ (codes "killed", flag k) ∷ [])
        >> pure k)

kill_rest-Killed :
    (sid host : Text) (k b : Bool) (t : Process)
    → (kill_rest sid host k t).0 ≡ ok b
    → Killed sid host b (kill_rest sid host k t).1
unfolding forget modify record_event pure ◌>>=◌
kill_rest-Killed sid host k b t h = rw (sym (ok-injective h)) (forgotten sid t, (t.audit, refl))

kill_end :
    (sid host : Text) (m : M Bool) (s : Process) (b : Bool)
    → ((m >>= kill_rest sid host) s).0 ≡ ok b
    → Killed sid host b ((m >>= kill_rest sid host) s).1
kill_end sid host m s b h =
    let (k, (t, (e, w))) = >>=-returned m (kill_rest sid host) s b h in
    rw w (kill_rest-Killed sid host k b t (sym (ap (λ r. r.0) w) ∙ h))

-- the shape of `kill`
kill_shape :
    (sid : Text) (m : Text × Text → M Bool) (p : Text × Text) (s : Process) (b : Bool)
    → lift (parse_session_id sid) s ≡ (ok p, s)
    → ((lift (parse_session_id sid) >>= λ q. m q >>= kill_rest sid q.0) s).0 ≡ ok b
    → Killed sid p.0 b ((lift (parse_session_id sid) >>= λ q. m q >>= kill_rest sid q.0) s).1
kill_shape sid m p s b parsed =
    rw (>>=-returns (lift (parse_session_id sid)) (λ q. m q >>= kill_rest sid q.0) s p s parsed)
      (kill_end sid p.0 (m p) s b)

-- A `kill` of an id that parses and that returns, killed or not: the session is no longer registered,
-- and the last event recorded is a `session_kill` of that session on its host, which says what was
-- returned.
pub kill-Killed :
    (env : Env) (sid : Text) (s : Process) (p : Text × Text) (b : Bool)
    → parse_session_id sid ≡ ok p
    → (kill env sid s).0 ≡ ok b
    → Killed sid p.0 b (kill env sid s).1
unfolding kill lift
kill-Killed env sid s p b parsed = kill_shape sid _ p s b (rw parsed refl)
