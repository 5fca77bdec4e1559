-- ===== src/Tests/Fixtures.antt =====
-- A host, a session and a process, for the tests of ssh.py and sessions.py.
use tai_mcp_ssh.Prelude.{Bool, true, false, none, some, [], ◌∷◌, Text, codes, Dict, arith}
use tai_mcp_ssh.Prelude.Int.{pos}
use tai_mcp_ssh.Str.Utf8.{ready}
use tai_mcp_ssh.Config.Entry.{Host, key}
use tai_mcp_ssh.Config.File.{empty_config}
use tai_mcp_ssh.Process.{
  eof, chunk, local_eof, local_chunk, bytes, fine, Process, Env, Connection, Completed, finished,
  str, Opened, no_entry,
}
use tai_mcp_ssh.Process.Settles.{Ticks}
use tai_mcp_ssh.Sessions.State.{SessionState}

abbrev pub pi : Host
pi = record {
  alias = codes "pi";
  host = none;
  user = none;
  port = pos 22;
  auth = key;
  identity_file = none;
  password_ref = none;
  log_retention_days = pos 7;
}

abbrev pub silent : Completed
silent = record { status = some 0; stdout = str []; stderr = str [] }

-- a world in which the clock counts the calls and commands print nothing
abbrev pub world : Opened → Env
world o = record {
  now = λ t. t;
  monotonic = λ t. t;
  new_ulid = λ t. codes "01A";
  ssh_config_exists = λ t. false;
  get_password = λ t service account. no_entry;
  connect = λ t args. o;
  exec = λ t id command check raw. finished silent;
  error_text = λ t. codes "error";
  start_sftp = λ t id. fine;
  sftp_open = λ t id path writing. fine;
  sftp_write = λ t id path content. fine;
  sftp_close = λ t id path. fine;
  remote_reads = λ t id path. chunk (bytes (1 ∷ 2 ∷ [])) (chunk (bytes (3 ∷ [])) eof);
  expanduser = λ t p. some p;
  resolve = λ t p. some p;
  is_file = λ t p. true;
  file_size = λ t p. some 3;
  local_reads = λ t p. local_chunk (1 ∷ 2 ∷ []) (local_chunk (3 ∷ []) local_eof);
  make_dirs = λ t p. true;
  open_write = λ t p. true;
  local_write = λ t p content. true;
  hosts_file = λ t. some none;
  environ = λ name. none;
  user_home = record { rooted = true; parts = codes "home" ∷ codes "me" ∷ [] };
  is_darwin = false;
  sha256 = λ content. content;
  toml = record { loads = λ text. none; dumps = λ t. [] };
  same_value = λ v w. false;
}

pub world-Ticks : (o : Opened) → Ticks (world o)
world-Ticks o t = omega arith

abbrev pub connection : Connection
connection = record {
  host = pi;
  tmux_path = some (codes "/usr/bin/tmux");
  home_dir = some (codes "/home/pi");
  dead = false;
}

-- with no session; the connection is there if it is said so
abbrev pub process : Bool → Dict SessionState → Process
process connected sessions = record {
  tick = 0;
  conns = λ id. connection;
  next_conn = 1;
  hosts = (codes "pi", pi) ∷ [];
  idle_timeout_hours = 48;
  connections = elim connected [ true ↦ (codes "pi", 0) ∷ [] | false ↦ [] ];
  ready = elim connected [ true ↦ codes "pi" ∷ [] | false ↦ [] ];
  last_maintenance = [];
  tasks = [];
  sessions = sessions;
  audit = [];
  closed = [];
  sent = [];
  config = empty_config;
  uploads = [];
  downloads = [];
}

abbrev pub build_id : Text
build_id = codes "pi/build"

-- the session `pi/build`, with a command in flight
abbrev pub building : SessionState
building = record {
  session_id = build_id;
  host = codes "pi";
  name = codes "build";
  created_at = 0;
  last_used_at = 0;
  log_id = some (codes "01A");
  log_path = some (codes "/home/pi/.tai-ssh/logs/01A.log");
  started_at = some 0;
  command = some (codes "make");
  reason = none;
  log_offset = 0;
  log_text = [];
  log_decoder = ready;
  scan_pos = 0;
}

abbrev pub build_session : Dict SessionState
build_session = (build_id, building) ∷ []
