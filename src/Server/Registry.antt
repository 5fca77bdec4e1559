-- ===== src/Server/Registry.antt =====
-- The session registry under the tool calls of server.py.
use tai_mcp_ssh.Prelude.{Option, none, some, Text, codes, Dict}
use tai_mcp_ssh.Errors.{Exc}
use tai_mcp_ssh.Sessions.State.{SessionState}
use tai_mcp_ssh.Process.{Env, M}
use tai_mcp_ssh.Process.Keeps.{
  Keeps, Keeps-pure, Keeps-throw, Keeps-gets, Keeps-if, Keeps-bind, Keeps-catch,
}
use tai_mcp_ssh.Process.Frame.{On, On-ask, On-record_event, Keeps-Quiet}
use tai_mcp_ssh.Process.Tells.{Tells}
use tai_mcp_ssh.Sessions.Poll.Registry.{Sane}
use tai_mcp_ssh.Sessions.Manager.{list_sessions}
use tai_mcp_ssh.Sessions.Manager.Invariant.{run-Keeps, wait-Keeps, kill-Keeps, reset-Keeps}
use tai_mcp_ssh.Server.{
  Args, argument, session_list_tool, session_run_tool, session_wait_tool, session_kill_tool,
  session_reset_tool, dispatch, audit_failure, audit_and_raise, dispatch_and_audit,
}
use tai_mcp_ssh.Server.Frame.{hosts_tool-Quiet, put_tool-Tells, get_tool-Tells}

Keeps-Tells :
    {Q : Dict SessionState → Type 0} (tool : Text) {A : Type 0} (m : M A)
    → Tells Q tool m
    → Keeps (On Q) m
Keeps-Tells tool m tells = record { at = λ s h. (tells.at s h).0 }

argument-Keeps : (o : Option Text) → Keeps Sane (argument o)
unfolding argument
argument-Keeps none = Keeps-throw _
argument-Keeps (some s) = Keeps-pure s

module _ (env : Env) where
  session_list-Keeps : Keeps Sane session_list_tool
  unfolding session_list_tool list_sessions
  session_list-Keeps = Keeps-bind _ _ (Keeps-gets _) (λ l. Keeps-pure _)

  module _ (args : Args) where
    session_run-Keeps : Keeps Sane (session_run_tool env args)
    unfolding session_run_tool
    session_run-Keeps = Keeps-bind _ _ (argument-Keeps _) (λ sid.
        Keeps-bind _ _ (argument-Keeps _)
          (λ command. Keeps-bind _ _ (run-Keeps env _ _ sid command _) (λ r. Keeps-pure _)))

    session_wait-Keeps : Keeps Sane (session_wait_tool env args)
    unfolding session_wait_tool
    session_wait-Keeps =
        Keeps-bind _ _ (argument-Keeps _)
          (λ sid. Keeps-bind _ _ (wait-Keeps env _ _ sid) (λ r. Keeps-pure _))

    session_kill-Keeps : Keeps Sane (session_kill_tool env args)
    unfolding session_kill_tool
    session_kill-Keeps =
        Keeps-bind _ _ (argument-Keeps _)
          (λ sid. Keeps-bind _ _ (kill-Keeps env sid) (λ r. Keeps-pure _))

    session_reset-Keeps : Keeps Sane (session_reset_tool env args)
    unfolding session_reset_tool
    session_reset-Keeps =
        Keeps-bind _ _ (argument-Keeps _)
          (λ sid. Keeps-bind _ _ (reset-Keeps env sid) (λ r. Keeps-pure _))

    dispatch-Keeps : (name : Text) → Keeps Sane (dispatch env name args)
    unfolding dispatch
    dispatch-Keeps name = Keeps-if _ _ _ (Keeps-Quiet (hosts_tool-Quiet env)) (
        Keeps-if _ _ _ session_list-Keeps (
          Keeps-if _ _ _ session_run-Keeps (
            Keeps-if _ _ _ session_wait-Keeps (
              Keeps-if _ _ _ session_kill-Keeps (
                Keeps-if _ _ _ session_reset-Keeps (
                  Keeps-if _ _ _ (Keeps-Tells (codes "put") _ (put_tool-Tells env args)) (
                    Keeps-if _ _ _ (Keeps-Tells (codes "get") _ (get_tool-Tells env args))
                      (Keeps-throw _))))))))

    audit_failure-Keeps : (name status : Text) → Keeps Sane (audit_failure env name args status)
    unfolding audit_failure
    audit_failure-Keeps name status = Keeps-bind _ _ (On-ask _) (λ error. On-record_event _ _ _)

    audit_and_raise-Keeps : (name : Text) (e : Exc) → Keeps Sane (audit_and_raise env name args e)
    unfolding audit_and_raise
    audit_and_raise-Keeps name e =
        Keeps-if _ _ _ (Keeps-bind _ _ (audit_failure-Keeps name _) (λ _. Keeps-throw e)) (
          Keeps-if _ _ _ (Keeps-throw e)
            (Keeps-bind _ _ (audit_failure-Keeps name _) (λ _. Keeps-throw e)))

    pub dispatch_and_audit-Keeps : (name : Text) → Keeps Sane (dispatch_and_audit env name args)
    unfolding dispatch_and_audit
    dispatch_and_audit-Keeps name =
        Keeps-catch _ _ (dispatch-Keeps name) (audit_and_raise-Keeps name)
