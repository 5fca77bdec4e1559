-- ===== src/Ssh/Pool.antt =====
-- `ConnectionPool` of ssh.py: `get`, `close_all`, `update_hosts`, `_evict`, `_ensure_ready` and
-- `_schedule_maintenance`.
pub mod Frame
use tai_mcp_ssh.Prelude.{
  ℕ, suc, ◌+◌, ◌-◌, Bool, true, false, not, ◌&&◌, ◌||◌, Option, none, some, List, [], ◌∷◌, ◌++◌,
  ltb, ◌==◌, if◌then◌else◌, Text, codes, member, text_eq, select, map, Dict, get, put, remove,
  is_some,
}
use tai_mcp_ssh.Str.Chars.{strip}
use tai_mcp_ssh.Errors.{Exc, host_not_allowed, tmux_missing, runtime_error}
use tai_mcp_ssh.Audit.Value.{text}
use tai_mcp_ssh.Config.Entry.{Host}
use tai_mcp_ssh.Process.{
  Completed, Env, Connection, Process, M, pure, throw, gets, ask, modify, catch, record_event,
  update_conn, ◌>>=◌, ◌>>◌,
}
use tai_mcp_ssh.Ssh.Connection.{run, as_str, ok_status}
use tai_mcp_ssh.Ssh.Open.{open_conn}

-- `_evict`: an error while closing is swallowed
unfoldable pub evict : Text → M (Unit {0})
evict alias = modify λ s. record s {
  connections = remove alias s.connections;
  ready = select (λ a. not (text_eq a alias)) s.ready;
  closed = elim (get alias s.connections) [ none ↦ s.closed | some id ↦ s.closed ++ id ∷ [] ];
}

no_text : Text → Bool
no_text [] = true
no_text (c ∷ s) = false

-- `conn.alias`
unfoldable pub alias_of : ℕ → M Text
alias_of id = gets λ s. (s.conns id).host.alias

unfoldable pub logdir_command : Text
logdir_command = codes "mkdir -p -m 0700 ~/.tai-ssh/logs"

-- the first step: tmux has to be there
check_tmux : Text → ℕ → Completed → M (Unit {0})
unfolding no_text
check_tmux alias id c =
    let path = strip (as_str c.stdout) in
    if not (ok_status c.status) || no_text path
    then (do
      record_event (codes "_tmux_check") (some alias)
          ((codes "status", text (codes "missing")) ∷ [])
      throw tmux_missing)
    else (do
      modify (update_conn id (λ conn. record conn { tmux_path = some path }))
      record_event (codes "_tmux_check") (some alias)
          ((codes "status", text (codes "ok")) ∷ (codes "tmux_path", text path) ∷ []))

-- the second step: the home directory
check_home : ℕ → Completed → M (Unit {0})
unfolding no_text
check_home id c =
    let home = strip (as_str c.stdout) in
    if no_text home
    then throw runtime_error
    else modify (update_conn id (λ conn. record conn { home_dir = some home }))

-- `_ensure_ready`
unfoldable pub ensure_ready : Env → ℕ → M (Unit {0})
unfolding check_tmux check_home logdir_command
ensure_ready env id = do
  alias ← alias_of id
  c ← run env id (codes "command -v tmux") false false
  check_tmux alias id c
  h ← run env id (codes "echo $HOME") true false
  check_home id h
  run env id logdir_command true false
  record_event (codes "_logdir_check") (some alias) ((codes "status", text (codes "ok")) ∷ [])

-- microseconds
abbrev pub maintenance_interval : ℕ
maintenance_interval = 3600000000

-- whether less than the interval has passed since the last run
unfoldable pub too_soon : ℕ → Option ℕ → Bool
too_soon now none = false
too_soon now (some last) = ltb now (last + maintenance_interval)

-- `_schedule_maintenance`: the task is put down, and runs later
unfoldable pub schedule_maintenance : Env → ℕ → M (Unit {0})
unfolding too_soon
schedule_maintenance env id = do
  alias ← alias_of id
  now ← ask env.monotonic
  modify λ s. if too_soon now (get alias s.last_maintenance) then s else record s {
    last_maintenance = put alias now s.last_maintenance;
    tasks = s.tasks ++ id ∷ [];
  }

-- the cached connection, if it is alive
alive : Text → Option ℕ → M (Option ℕ)
alive alias none = pure none
alive alias (some id) = do
  dead ← gets (λ s. (s.conns id).dead)
  if dead then (do evict alias; pure none) else pure (some id)

unfoldable pub cached_or_open : Env → Text → Option ℕ → M ℕ
cached_or_open env alias (some id) = pure id
cached_or_open env alias none = do
  id ← open_conn env alias
  modify (λ s. record s { connections = put alias id s.connections })
  pure id

-- the bootstrap, unless it has been done; a connection that fails it is evicted
unfoldable pub make_ready : Env → Text → ℕ → Bool → M (Unit {0})
make_ready env alias id true = pure tt
make_ready env alias id false = do
  catch (ensure_ready env id) (λ e. do evict alias; throw e)
  modify (λ s. record s { ready = s.ready ++ alias ∷ [] })

obtain : Env → Text → M ℕ
unfolding alive
obtain env alias = do
  cached ← gets (λ s. get alias s.connections)
  live ← alive alias cached
  id ← cached_or_open env alias live
  done ← gets (λ s. member alias s.ready)
  make_ready env alias id done
  schedule_maintenance env id
  pure id

-- `get`
unfoldable pub get_conn : Env → Text → M ℕ
unfolding obtain
get_conn env alias = do
  allowed ← gets (λ s. is_some (get alias s.hosts))
  if allowed then obtain env alias else throw host_not_allowed

unfoldable pub close_all : M (Unit {0})
close_all = modify λ s. record s {
  closed = s.closed ++ map (λ e. e.1) s.connections;
  connections = [];
  ready = [];
}

unfoldable pub evict_all : List Text → M (Unit {0})
evict_all [] = pure tt
evict_all (alias ∷ aliases) = do evict alias; evict_all aliases

unfoldable pub update_hosts : Dict Host → List Text → Option ℕ → M (Unit {0})
update_hosts new_hosts evicted idle = do
  modify λ s. record s {
    hosts = new_hosts;
    idle_timeout_hours = elim idle [ none ↦ s.idle_timeout_hours | some h ↦ h ];
  }
  evict_all evicted
