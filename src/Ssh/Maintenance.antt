-- ===== src/Ssh/Maintenance.antt =====
-- `_maintain`, `_sweep_remote_logs`, `_reap_idle_sessions` and `_kill_command` of ssh.py.
pub mod Frame
use tai_mcp_ssh.Prelude.{
  ℕ, zero, suc, ◌+◌, Bool, true, false, not, ◌&&◌, ◌||◌, Option, none, some, List, [], ◌∷◌, ◌++◌,
  ltb, ◌==◌, if◌then◌else◌, Text, codes, member, select, map, Dict, keys, length,
}
use tai_mcp_ssh.Prelude.Int.{ℤ, pos, ltz}
use tai_mcp_ssh.Str.Chars.{strip, decimal, decimal_int, is_part, join}
use tai_mcp_ssh.Str.Lines.{splitlines}
use tai_mcp_ssh.Errors.{Exc, runtime_error}
use tai_mcp_ssh.Audit.Value.{Value, text, number, texts}
use tai_mcp_ssh.Shell.{quote}
use tai_mcp_ssh.Process.{Completed, Env, M, pure, throw, gets, catch, record_event, ◌>>=◌, ◌>>◌}
use tai_mcp_ssh.Ssh.Reaper.{select_idle_sessions}
use tai_mcp_ssh.Ssh.Connection.{run, as_str, ok_status}
use tai_mcp_ssh.Ssh.Pool.{alias_of}

-- `pgrep -P <pid>` has to report, by its status 1, that there is no child
pid_test : ℤ → Text
pid_test pid = codes "{ pgrep -P " ++ (decimal_int pid ++ codes " >/dev/null 2>&1; [ $? -eq 1 ]; }")

kill_part : Text × List ℤ → Text
unfolding pid_test
kill_part (name, pids) =
    join (codes " && ") (map pid_test pids)
    ++ (codes " && tmux kill-session -t "
        ++ (quote (b'=' ∷ name) ++ (codes " && printf '%s\\n' " ++ quote name)))

-- `_kill_command`
unfoldable pub kill_command : Dict (List ℤ) → Text
unfolding kill_part
kill_command candidates = join (codes "; ") (map kill_part candidates)

-- `_LIST_PANES_CMD`; a tab is written out
unfoldable pub list_panes_command : Text
list_panes_command =
    codes "date +%s; tmux list-panes -a -F '#{session_name}"
    ++ (9 ∷ codes "#{session_attached}"
        ++ (9 ∷ codes "#{session_activity}"
            ++ (9 ∷ codes "#{pane_current_command}" ++ (9 ∷ codes "#{pane_pid}'"))))

-- the listing, or nothing where there is no tmux server
unfoldable pub listing_of : Completed → M Text
listing_of c =
    if ok_status c.status
    then pure (as_str c.stdout)
    else if is_part (codes "no server running") (as_str c.stderr)
        || is_part (codes "error connecting") (as_str c.stderr)
    then pure []
    else throw runtime_error

-- the candidates that the remote says it killed
unfoldable pub kill_candidates : Env → ℕ → Dict (List ℤ) → M (List Text)
kill_candidates env id [] = pure []
kill_candidates env id (c ∷ cs) = do
  done ← run env id (kill_command (c ∷ cs)) false false
  pure (select (λ n. member n (keys (c ∷ cs))) (splitlines false (as_str done.stdout)))

unfoldable pub reap_fields : ℕ → List Text → Text → Dict Value
reap_fields hours killed status =
    (codes "idle_timeout_hours", number (pos hours))
    ∷ (codes "killed", texts killed)
    ∷ (codes "status", text status)
    ∷ []

unfoldable pub reap_attempt : Env → ℕ → ℕ → M (Unit {0})
unfolding listing_of kill_candidates
reap_attempt env id hours = do
  c ← run env id list_panes_command false false
  listing ← listing_of c
  killed ← kill_candidates env id (select_idle_sessions listing hours)
  alias ← alias_of id
  record_event (codes "_session_sweep") (some alias) (reap_fields hours killed (codes "ok"))

-- `_reap_idle_sessions`; the error text of a failure is not modelled
unfoldable pub reap_idle_sessions : Env → ℕ → ℕ → M (Unit {0})
unfolding reap_attempt
reap_idle_sessions env id hours =
    if hours == 0
    then pure tt
    else catch (reap_attempt env id hours) (λ e. do
      alias ← alias_of id
      record_event (codes "_session_sweep") (some alias) (reap_fields hours [] (codes "error")))

no_text : Text → Bool
no_text [] = true
no_text (c ∷ s) = false

-- `find … -mtime +<days> -delete -print`
unfoldable pub sweep_command : ℤ → Text
sweep_command days =
    codes "find ~/.tai-ssh/logs -type f -name '*.log' -mtime +"
    ++ (decimal_int days ++ codes " -delete -print")

deleted_count : Text → ℕ
unfolding no_text
deleted_count out = if no_text out then 0 else length (splitlines false (strip out))

unfoldable pub sweep_attempt : Env → ℕ → ℤ → M (Unit {0})
unfolding deleted_count
sweep_attempt env id days = do
  c ← run env id (sweep_command days) false false
  alias ← alias_of id
  record_event (codes "_remote_sweep") (some alias) (
      (codes "retention_days", number days)
      ∷ (codes "deleted", number (pos (deleted_count (as_str c.stdout))))
      ∷ (codes "status", text (if ok_status c.status then codes "ok" else codes "partial"))
      ∷ [])

-- `_sweep_remote_logs`
unfoldable pub sweep_remote_logs : Env → ℕ → ℤ → M (Unit {0})
unfolding sweep_attempt
sweep_remote_logs env id days = catch (sweep_attempt env id days) (λ e. do
  alias ← alias_of id
  record_event (codes "_remote_sweep") (some alias)
      ((codes "retention_days", number days) ∷ (codes "status", text (codes "error")) ∷ []))

-- `_maintain`
unfoldable pub maintain : Env → ℕ → M (Unit {0})
maintain env id = do
  days ← gets (λ s. (s.conns id).host.log_retention_days)
  sweep_remote_logs env id days
  hours ← gets (λ s. s.idle_timeout_hours)
  reap_idle_sessions env id hours
