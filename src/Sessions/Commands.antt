-- ===== src/Sessions/Commands.antt =====
-- The remote command lines of sessions.py: `_send_command`, `_read_log`, `kill`, `_session_target`,
-- `_pane_target` and `_attach_hint`.
use tai_mcp_ssh.Prelude.{ℕ, ◌+◌, ◌++◌, Text, codes}
use tai_mcp_ssh.Str.Chars.{decimal}
use tai_mcp_ssh.Shell.{quote}

-- `=tai/<name>`
unfoldable pub session_target : Text → Text
session_target name = codes "=tai/" ++ name

-- `=tai/<name>:`
unfoldable pub pane_target : Text → Text
pane_target name = codes "=tai/" ++ (name ++ codes ":")

unfoldable pub attach_hint : Text → Text → Text
attach_hint host name = codes "ssh " ++ (host ++ (codes " -t tmux attach -t tai/" ++ name))

-- the command between its markers
unfoldable pub wrapped : Text → Text → Text
wrapped log_id command =
    codes "echo __TAI_START__"
    ++ (log_id
        ++ (codes "__; eval "
            ++ (quote command
                ++ (codes "; printf '\\n__TAI_DONE__%d__" ++ (log_id ++ codes "__\\n' \"$?\"")))))

unfoldable pub ensure_command : Text → Text → Text
unfolding session_target pane_target
ensure_command name log_path =
    codes "tmux has-session -t "
    ++ (session_target name
        ++ (codes " 2>/dev/null || "
            ++ (codes "{ tmux new-session -d -s tai/"
                ++ (name
                    ++ (codes " && echo __TAI_CREATED__; }; "
                        ++ (codes "tmux pipe-pane -t "
                            ++ (pane_target name
                                ++ (codes "; "
                                    ++ (codes "tmux pipe-pane -t "
                                        ++ (pane_target name
                                            ++ (codes " "
                                                ++ quote (codes "cat >> " ++ log_path))))))))))))

unfoldable pub type_command : Text → Text → Text → Text
unfolding pane_target wrapped
type_command name log_id command =
    codes "tmux send-keys -t "
    ++ (pane_target name ++ (codes " -l " ++ quote (wrapped log_id command)))

unfoldable pub enter_command : Text → Text
unfolding pane_target
enter_command name = codes "tmux send-keys -t " ++ (pane_target name ++ codes " Enter")

unfoldable pub tail_command : ℕ → Text → Text
tail_command offset log_path =
    codes "tail -c +" ++ (decimal (offset + 1) ++ (codes " " ++ quote log_path))

unfoldable pub kill_session_command : Text → Text
unfolding session_target
kill_session_command name = codes "tmux kill-session -t " ++ session_target name

unfoldable pub log_path_of : Text → Text → Text
log_path_of home log_id = home ++ (codes "/.tai-ssh/logs/" ++ (log_id ++ codes ".log"))
