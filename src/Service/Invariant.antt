-- ===== src/Service/Invariant.antt =====
-- The registry under any sequence of the server's steps.
use tai_mcp_ssh.Prelude.{some, [], Text, ◌≡◌, get, arith}
use tai_mcp_ssh.Process.{Process, Env}
use tai_mcp_ssh.Process.Frame.{Keeps-Quiet}
use tai_mcp_ssh.Ssh.Maintenance.Frame.{maintain-Quiet, close_all-Quiet}
use tai_mcp_ssh.Sessions.State.{SessionState}
use tai_mcp_ssh.Sessions.State.Registry.{IsSane}
use tai_mcp_ssh.Sessions.Poll.Registry.{Sane}
use tai_mcp_ssh.Server.Registry.{dispatch_and_audit-Keeps}
use tai_mcp_ssh.Service.{Step, called, maintained, closed, Reachable, started, stepped}

Step-Sane : (env : Env) {s t : Process} → Step env s t → Sane s → Sane t
Step-Sane env (called name args s) = (dispatch_and_audit-Keeps env args name).at s
Step-Sane env (maintained id s) = (Keeps-Quiet (maintain-Quiet env id)).at s
Step-Sane env (closed s) = (Keeps-Quiet close_all-Quiet).at s

Reachable-Sane : (env : Env) {s t : Process} → Reachable env s t → Sane s → Sane t
Reachable-Sane env started h = h
Reachable-Sane env (stepped r x) h = Step-Sane env x (Reachable-Sane env r h)

-- From a process that has no session, whatever the remote hosts, the clock and the keychain answer,
-- after any sequence of steps (tool calls of any name and arguments, maintenance and closes, each of
-- which may raise or run out of fuel): a session that the registry gives for an id is
-- sane for that id. It carries that id, which parses to its host and name; it is idle with nothing
-- read, or has all the fields of a command in flight; and its text is what an incremental UTF-8
-- decoder makes of as many bytes as its offset says, with the scan position inside the text.
pub Reachable-IsSane :
    (env : Env) (start now : Process) (sid : Text) (st : SessionState)
    → start.sessions ≡ []
    → Reachable env start now
    → get sid now.sessions ≡ some st
    → IsSane sid st
unfolding get
Reachable-IsSane env start now sid st empty r found =
    (Reachable-Sane env r (record { holds = rw empty (λ i t e. absurd (ground (arith, e))) })).holds
      sid st found
