-- ===== src/Tests/Server.antt =====
-- Tool calls of the server, on one host.
use tai_mcp_ssh.Prelude.{
  true, none, some, [], ◌∷◌, ◌≡◌, refl, Text, codes, get, put, text_eq, member, strip_prefix, map,
  ◌++◌, if◌then◌else◌,
}
use tai_mcp_ssh.Errors.{ok, raise, os_error, is_tai_error}
use tai_mcp_ssh.Config.File.{empty_config, load_config}
use tai_mcp_ssh.Process.{
  Env, Process, opened, process_failed, pure, throw, lift, gets, ask, modify, catch, record_event,
  ◌>>=◌,
}
use tai_mcp_ssh.Ssh.Connection.{run as run_command, home_dir}
use tai_mcp_ssh.Ssh.Pool.{
  get_conn, cached_or_open, make_ready, schedule_maintenance, alias_of, too_soon,
}
use tai_mcp_ssh.Str.Chars.{contains, before, after}
use tai_mcp_ssh.Sessions.Id.{parse_session_id, is_safe_name, is_safe_char}
use tai_mcp_ssh.Sessions.State.{SessionState, new_state, cleared}
use tai_mcp_ssh.Sessions.State.Registry.{IsSane}
use tai_mcp_ssh.Sessions.Commands.{log_path_of}
use tai_mcp_ssh.Sessions.Poll.{store, clear_state}
use tai_mcp_ssh.Sessions.Manager.{run, start_command, send_command, try_send, assigned}
use tai_mcp_ssh.Services.{read_config}
use tai_mcp_ssh.Server.{
  hosts_tool, host_views, host_view, reload_counts, Args, dispatch, dispatch_and_audit,
  audit_and_raise, audit_failure, argument, session_run_tool, is_rejection,
}
use tai_mcp_ssh.Server.Reload.{is_stale, hosts_tool-reloads, hosts_tool-keeps}
use tai_mcp_ssh.Audit.Value.{text}
use tai_mcp_ssh.Server.Audited.{IsAudited, dispatch_and_audit-IsAudited}
use tai_mcp_ssh.Service.{called, started, stepped}
use tai_mcp_ssh.Service.Invariant.{Reachable-IsSane}
use tai_mcp_ssh.Tests.Fixtures.{world, world-Ticks, process, pi, build_id}

-- a world in which every command fails
abbrev failing : Env
failing = record (world opened) { exec = λ t id command check raw. process_failed }

abbrev no_args : Args
no_args = record {
  session_id = none;
  command = none;
  reason = none;
  timeout = none;
  host = none;
  local_path = none;
  remote_path = none;
  allow_outside = none;
}

abbrev run_args : Args
run_args = record no_args { session_id = some build_id; command = some (codes "make") }

-- the call has failed, and left an idle session
abbrev failed_run : Process
failed_run = (dispatch_and_audit failing (codes "session_run") run_args (process true [])).1

abbrev idle_state : SessionState
idle_state = cleared 5 (
    assigned (codes "01A") (log_path_of (codes "/home/pi") (codes "01A")) (codes "make") none 3
      (new_state 1 build_id (codes "pi") (codes "build")))

idle_registered : get build_id failed_run.sessions ≡ some idle_state
unfolding dispatch_and_audit dispatch session_run_tool argument audit_and_raise audit_failure
    is_rejection run start_command send_command try_send store clear_state run_command home_dir
    get_conn cached_or_open make_ready schedule_maintenance alias_of too_soon gets ask modify pure
    throw lift catch ◌>>=◌ get put member text_eq record_event parse_session_id contains before
    after is_safe_char is_safe_name new_state assigned cleared strip_prefix is_tai_error
idle_registered = refl

Reachable-IsSane_example : IsSane build_id idle_state
Reachable-IsSane_example =
    Reachable-IsSane failing (process true []) failed_run build_id idle_state refl
      (stepped started (called (codes "session_run") run_args (process true []))) idle_registered

-- an unknown tool
dispatch_and_audit-IsAudited_example :
    IsAudited
      (codes "shell")
      (dispatch_and_audit (world opened) (codes "shell") no_args (process true [])).0
      (process true [])
      (dispatch_and_audit (world opened) (codes "shell") no_args (process true [])).1
dispatch_and_audit-IsAudited_example =
    dispatch_and_audit-IsAudited (world opened) (codes "shell") no_args (process true [])
      (world-Ticks opened) refl

no_file_read : read_config (world opened) (some none) ≡ ok empty_config
unfolding read_config load_config
no_file_read = refl

-- the process as after a start with one host, of which a connection is cached
abbrev with_host : Process
with_host = record (process true []) {
  config = record empty_config { hosts = (codes "pi", pi) ∷ [] };
}

hosts_tool-reloads_example :
    ((hosts_tool (world opened) with_host).0 ≡ ok (host_views []))
    × ((hosts_tool (world opened) with_host).1.config ≡ empty_config)
    × ((hosts_tool (world opened) with_host).1.hosts ≡ [])
    × ((hosts_tool (world opened) with_host).1.idle_timeout_hours ≡ 48)
    × ((alias : Text)
        → get alias (hosts_tool (world opened) with_host).1.connections ≡ (
            if is_stale (world opened) (get alias with_host.config.hosts) (get alias [])
            then none
            else get alias with_host.connections))
hosts_tool-reloads_example = hosts_tool-reloads (world opened) with_host empty_config no_file_read

-- a world in which the file of hosts cannot be read
abbrev unreadable : Env
unreadable = record (world opened) { hosts_file = λ t. none }

file_unreadable : read_config unreadable none ≡ raise os_error
unfolding read_config
file_unreadable = refl

hosts_tool-keeps_example :
    ((hosts_tool unreadable with_host).0 ≡ ok (host_views (map host_view ((codes "pi", pi) ∷ []))))
    × ((hosts_tool unreadable with_host).1.config ≡ with_host.config)
    × ((hosts_tool unreadable with_host).1.hosts ≡ (codes "pi", pi) ∷ [])
    × ((hosts_tool unreadable with_host).1.idle_timeout_hours ≡ 48)
    × ((hosts_tool unreadable with_host).1.connections ≡ (codes "pi", 0) ∷ [])
    × ((hosts_tool unreadable with_host).1.audit
        ≡ record {
          tool = codes "_hosts_reload";
          host = none;
          fields =
              reload_counts (codes "error") (0, 0, 0) ++ (codes "error", text (codes "error")) ∷ [];
        }
          ∷ [])
hosts_tool-keeps_example = hosts_tool-keeps unreadable with_host os_error file_unreadable
