-- ===== src/Tests/Manager.antt =====
-- The operations of the session manager, on one session of one host.
use tai_mcp_ssh.Prelude.{
  true, false, none, [], ◌≡◌, refl, Text, codes, get, text_eq, member, arith, Bool-cases, inl, inr,
  text_eq_iff,
}
use tai_mcp_ssh.Str.Utf8.{decode}
use tai_mcp_ssh.Errors.{ok, raise, host_unreachable}
use tai_mcp_ssh.Process.{
  Process, opened, dead_on_open, pure, throw, lift, gets, ask, modify, catch, record_event, ◌>>=◌,
}
use tai_mcp_ssh.Errors.{Calm}
use tai_mcp_ssh.Ssh.Connection.{run as run_command, ok_status}
use tai_mcp_ssh.Ssh.Open.{open_conn}
use tai_mcp_ssh.Ssh.Pool.{
  get_conn, cached_or_open, make_ready, schedule_maintenance, alias_of, too_soon,
}
use tai_mcp_ssh.Sessions.Id.{parse_session_id, is_safe_name, is_safe_char}
use tai_mcp_ssh.Str.Chars.{contains, before, after}
use tai_mcp_ssh.Sessions.State.Registry.{Registry, IsSane, running}
use mathlib.Core.Path.{subst}
use tai_mcp_ssh.Sessions.Poll.{poll}
use tai_mcp_ssh.Sessions.Poll.Termination.{poll-Calm}
use tai_mcp_ssh.Sessions.Manager.{is_busy, busy_result, idle_result, forget, run, wait, kill, reset}
use tai_mcp_ssh.Sessions.Manager.Outcome.{run-busy, run-forgets, wait-forgets, wait-idle}
use tai_mcp_ssh.Sessions.Manager.Kill.{Killed, kill-Killed}
use tai_mcp_ssh.Sessions.Manager.Reset.{reset_lem}
use tai_mcp_ssh.Tests.Fixtures.{world, world-Ticks, process, build_id, building, build_session}

abbrev make : Text
make = codes "make"

poll-Calm_example :
    Calm (poll (world opened) 0 3 2 (codes "session_wait") building (process true build_session)).0
poll-Calm_example =
    poll-Calm (world opened) 0 3 2 (codes "session_wait") building (process true build_session)
      (world-Ticks opened) (omega arith)

build_id_parses : parse_session_id build_id ≡ ok (codes "pi", codes "build")
unfolding parse_session_id contains before after is_safe_char is_safe_name
build_id_parses = refl

-- the process behind the lookup of the connection, which is there
abbrev after_connect : Process → Process
after_connect s = (get_conn (world opened) (codes "pi") s).1

idle_connects :
    get_conn (world opened) (codes "pi") (process true []) ≡ (ok 0, after_connect (process true []))
unfolding get_conn cached_or_open make_ready schedule_maintenance alias_of too_soon gets ask modify
    pure ◌>>=◌ get member text_eq
idle_connects = refl

busy_connects :
    get_conn (world opened) (codes "pi") (process true build_session)
    ≡ (ok 0, after_connect (process true build_session))
unfolding get_conn cached_or_open make_ready schedule_maintenance alias_of too_soon gets ask modify
    pure ◌>>=◌ get member text_eq
busy_connects = refl

run-busy_example :
    run (world opened) 3 2 build_id make none (process true build_session)
    ≡ (ok (busy_result building), after_connect (process true build_session))
run-busy_example =
    run-busy (world opened) 3 2 0 build_id make none (process true build_session)
      (after_connect (process true build_session)) (codes "pi", codes "build") building
      (codes "01A") build_id_parses (unfold get text_eq in refl) refl busy_connects

wait-idle_example :
    wait (world opened) 3 2 build_id (process true [])
    ≡ (ok (idle_result build_id), after_connect (process true []))
wait-idle_example =
    wait-idle (world opened) 3 2 0 build_id (process true []) (after_connect (process true []))
      (codes "pi", codes "build") build_id_parses (unfold get is_busy in refl) idle_connects

run-forgets_example :
    get build_id
      (run (world dead_on_open) 3 2 build_id make none (process false build_session)).1.sessions
    ≡ none
run-forgets_example =
    run-forgets (world dead_on_open) 3 2 build_id make none (process false build_session)
      (codes "pi", codes "build") build_id_parses unreachable
  where
    unreachable :
        (run (world dead_on_open) 3 2 build_id make none (process false build_session)).0
        ≡ raise host_unreachable
    unreachable =
        unfold run forget get_conn cached_or_open open_conn gets ask modify pure throw lift catch
          ◌>>=◌ get text_eq parse_session_id contains before after is_safe_char is_safe_name in
        refl

wait-forgets_example :
    get build_id (wait (world dead_on_open) 3 2 build_id (process false build_session)).1.sessions
    ≡ none
wait-forgets_example =
    wait-forgets (world dead_on_open) 3 2 build_id (process false build_session)
      (codes "pi", codes "build") build_id_parses unreachable
  where
    unreachable :
        (wait (world dead_on_open) 3 2 build_id (process false build_session)).0
        ≡ raise host_unreachable
    unreachable =
        unfold wait forget get_conn cached_or_open open_conn gets ask modify pure throw lift catch
          ◌>>=◌ get text_eq parse_session_id contains before after is_safe_char is_safe_name in
        refl

kill-Killed_example :
    Killed build_id (codes "pi") true (kill (world opened) build_id (process true build_session)).1
kill-Killed_example =
    kill-Killed (world opened) build_id (process true build_session) (codes "pi", codes "build")
      true build_id_parses killed
  where
    killed : (kill (world opened) build_id (process true build_session)).0 ≡ ok true
    killed =
        unfold kill run_command forget get_conn cached_or_open make_ready schedule_maintenance
          alias_of too_soon gets ask modify pure lift catch ◌>>=◌ get member text_eq ok_status
          record_event parse_session_id contains before after is_safe_char is_safe_name in
        refl

building-IsSane : IsSane build_id building
unfolding decode
building-IsSane = record {
  registered = refl;
  parsed = build_id_parses;
  phase = running (record {
    log_id = codes "01A";
    log_path = codes "/home/pi/.tai-ssh/logs/01A.log";
    started_at = 0;
    command = make;
    has_id = refl;
    has_path = refl;
    has_start = refl;
    has_command = refl;
  });
  log = record { raw = []; counted = refl; decoded = refl; scanned = omega arith };
}

build_session-Registry : Registry build_session
unfolding get
build_session-Registry sid st found = elim (Bool-cases (text_eq build_id sid)) [
  | inl e ↦
      let same : building ≡ st = ground (arith, found, e) in
      subst (λ k. IsSane k st) ((text_eq_iff build_id sid).0 e)
        (subst (IsSane build_id) same building-IsSane)
  | inr e ↦ absurd (ground (arith, e, found))
]

reset_lem_example :
    ((reset (world opened) build_id (process true build_session)).0
      ≡ ok (is_busy (get build_id build_session)))
    × (is_busy
          (get build_id (reset (world opened) build_id (process true build_session)).1.sessions)
        ≡ false)
    × ((reset (world opened) build_id (process true build_session)).1.sent ≡ [])
reset_lem_example =
    reset_lem (world opened) build_id (process true build_session) (codes "pi", codes "build")
      build_id_parses build_session-Registry
