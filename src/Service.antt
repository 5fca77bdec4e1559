-- ===== src/Service.antt =====
-- The steps of the server process: the tool calls of server.py, the maintenance tasks, and
-- `Services.close`. Each runs to its end before the next.
pub mod Invariant
use tai_mcp_ssh.Prelude.{ℕ, Text}
use tai_mcp_ssh.Process.{Process, Env}
use tai_mcp_ssh.Ssh.Pool.{close_all}
use tai_mcp_ssh.Ssh.Maintenance.{maintain}
use tai_mcp_ssh.Server.{Args, dispatch_and_audit}

module _ (env : Env) where
  pub data Step : Process → Process → Type 0 where
    called :
        (name : Text) (args : Args) (s : Process) → Step s (dispatch_and_audit env name args s).1
    maintained : (id : ℕ) (s : Process) → Step s (maintain env id s).1
    closed : (s : Process) → Step s (close_all s).1

  -- the process after any number of steps
  pub data Reachable (start : Process) : Process → Type 0 where
    started : Reachable start start
    stepped : {s t : Process} → Reachable start s → Step s t → Reachable start t
