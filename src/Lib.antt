-- ===== src/Lib.antt =====
-- A model of tai-mcp-ssh, an MCP server that runs commands on remote hosts in tmux sessions over SSH.
--
-- The program, under src/tai_mcp_ssh/, and the modules that model it:
--
--   errors.py     Errors      the exceptions, without their messages, and the result of a call
--   config.py     Config      Node has the values of a TOML document, Forbidden is
--                             `_reject_forbidden_keys`, Entry is `_entry_to_host` and
--                             `_host_to_entry`, File is `load_config`, `save_host`, `delete_host`
--   audit.py      Audit       Redact is `_redact_command`, Record is `_build_record`, Files is
--                             `record`, `_write_locked` and `close`, Sweep is `sweep_retention`
--   ssh.py        Ssh         Connection is `Connection.run` and the fields of a connection, Open is
--                             `_open`, `_build_connect_kwargs` and `_resolve_password`, Pool is
--                             `ConnectionPool.get` with the bootstrap, eviction, `close_all` and
--                             `update_hosts`, Maintenance is `_maintain` and what it calls, Reaper is
--                             `select_idle_sessions`
--   sessions.py   Sessions    Id is `parse_session_id`, State the dataclasses, Commands the remote
--                             command lines, Sentinel the markers around the output, Prompt
--                             `_detect_prompt`, Slice `_slice_output`, Poll `_poll` and `_read_log`,
--                             Manager `run`, `wait`, `kill`, `reset` and `list_sessions`
--   transfer.py   Transfer    `put` and `get`, with their loops over the chunks
--   cli.py        Cli         `audit_tail`
--   paths.py      Paths       where the files are
--   server.py     Services    `Services.reload_hosts_from_disk`
--                 Server      `dispatch`, `_host_from_args` and `_dispatch_and_audit`
--                 Service     the tool calls, the maintenance tasks and the close as the steps of
--                             one process
--
-- Prelude, Str and Shell hold what these use of the language and its library: dictionaries in
-- insertion order, texts as lists of code points, `splitlines`, `int`, incremental UTF-8 decoding,
-- `shlex.quote`, pure paths, dates. Tests has concrete runs.
--
-- How the parts interact. Process has the state of the server process: the pool's connections, the
-- hosts, the session registry, the events recorded, and the commands sent. An action (`M`) takes the
-- process and returns a result and the process afterwards; what was changed before an exception stays
-- changed, as in Python. A connection is an object that the pool and the manager share: the process
-- has a store of them, and a reference is a number. What the program does not decide is in `Env`: the
-- clock, new log ids, the keychain, whether a connection opens, what each command over SSH
-- answers, what each SFTP call and each read of a file gives, and what the local file system does.
-- The bytes written to remote files and the contents of the local files written are in the process.
-- `Env` answers by the number of outside calls made so far, so that equal calls may answer
-- differently, and a statement for every `Env` assumes nothing of the hosts. The manager calls the
-- pool for a connection before each operation that is not local, and forgets a session if that or any
-- later call raises `HostUnreachable`.
--
-- Choices. Times are natural numbers of microseconds, so a timeout is finite and not negative; the
-- duration that is recorded is their exact quotient, and not the one of floating point. The loop of `_poll` runs on fuel and comes to
-- `pending` where it has used it up; the fuel that is enough is a number of rounds greater than the
-- timeout in microseconds, if every outside call takes at least one microsecond of the clock. Text
-- lengths are in code points; `bytes` of a result is the length of the UTF-8 encoding. The TOML
-- library is a parameter, `Toml`.
--
-- Judgements on actions carry the proofs through the layers. `Quiet` (Process/Quiet) is one that
-- leaves the registry alone, ends, raises nothing that is marked as audited, records no failed call
-- and writes no file but those of a parameter; `Settles` one that ends where the clock goes on;
-- `Keeps` one with an invariant; `Tells` one that records a denial before it raises it; `Does` relates
-- what an action returns to the states before and afterwards.
--
-- Not modelled: the locks, and so operations that interleave (each operation runs to its end, and
-- a maintenance task is a step of its own); the messages of exceptions; failures of the audit file
-- while an operation records, and handles that are closed; the JSON encoding of audit lines; the close of a file while an
-- exception passes; what the command line prints and asks, with `hosts_add`, `hosts_list`,
-- `hosts_remove` and `hosts_test` (cli.py); the tool schemas, which the SDK checks, the encoding
-- of answers and the stdio loop (server.py).
pub mod Prelude
pub mod Str
pub mod Errors
pub mod Audit
pub mod Config
pub mod Shell
pub mod Process
pub mod Ssh
pub mod Paths
pub mod Sessions
pub mod Transfer
pub mod Services
pub mod Server
pub mod Cli
pub mod Service
pub mod Tests
