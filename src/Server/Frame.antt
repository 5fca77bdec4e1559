-- ===== src/Server/Frame.antt =====
-- What the tools of server.py record before they raise, and what they leave of the registry.
use tai_mcp_ssh.Prelude.{
  Option, none, some, Text, codes, text_eq, text_eq_sound, Bool-cases, inl, inr, Dict, ◌≡◌, refl,
  arith, if◌then◌else◌,
}
use tai_mcp_ssh.Config.File.Ends.{load_config-IsCalm}
use tai_mcp_ssh.Sessions.State.{SessionState}
use tai_mcp_ssh.Process.{Env, M, ◌>>=◌}
use tai_mcp_ssh.Errors.{Calm}
use tai_mcp_ssh.Process.Quiet.{
  Nowhere, Writes-same, Quiet, Quiet-pure, Quiet-throw, Quiet-lift, Quiet-gets, Quiet-ask,
  Quiet-modify, Quiet-record_event, Quiet-bind, Quiet-catch,
}
use tai_mcp_ssh.Process.Settles.{Ticks, Settles}
use tai_mcp_ssh.Process.Tells.{Tells, Tells-Quiet, Tells-Settles, Tells-if, Tells-bind}
use tai_mcp_ssh.Ssh.Maintenance.Frame.{update_hosts-Quiet}
use tai_mcp_ssh.Transfer.Frame.{put_file-Tells, get_file-Tells}
use tai_mcp_ssh.Sessions.Manager.Termination.{
  run-Settles, wait-Settles, kill-Settles, reset-Settles, list_sessions-Settles,
}
use tai_mcp_ssh.Services.{read_config, reload_hosts_from_disk}
use tai_mcp_ssh.Server.{
  Args, Answer, reload_and_audit, argument, timeout_of, hosts_tool, session_list_tool,
  session_run_tool, session_wait_tool, session_kill_tool, session_reset_tool, put_tool, get_tool,
  dispatch,
}

read_config-Calm : (env : Env) (file : Option (Option Text)) → Calm (read_config env file)
unfolding read_config
read_config-Calm env none = refl
read_config-Calm env (some file) = (load_config-IsCalm env.toml file).calm

reload-Quiet : (env : Env) → Quiet Nowhere (reload_hosts_from_disk env)
unfolding reload_hosts_from_disk
reload-Quiet env = Quiet-bind _ _ (Quiet-ask _) (λ file.
    Quiet-bind _ _ (Quiet-lift _ (read_config-Calm env file)) (λ new.
      Quiet-bind _ _ (Quiet-gets _) (λ old.
        Quiet-bind _ _ (Quiet-modify _ (λ s. (refl, refl, refl)) (λ s. Writes-same refl refl))
          (λ _. Quiet-bind _ _ (update_hosts-Quiet _ _ _) (λ _. Quiet-pure _)))))

reload_and_audit-Quiet : (env : Env) → Quiet Nowhere (reload_and_audit env)
unfolding reload_and_audit
reload_and_audit-Quiet env =
    Quiet-catch _ _ (Quiet-bind _ _ (reload-Quiet env) (λ c. Quiet-record_event _ _ _ refl))
      (λ e h. Quiet-bind _ _ (Quiet-ask _) (λ error. Quiet-record_event _ _ _ refl))

argument-Quiet : (o : Option Text) → Quiet Nowhere (argument o)
unfolding argument
argument-Quiet none = Quiet-throw _ refl
argument-Quiet (some s) = Quiet-pure s

pub hosts_tool-Quiet : (env : Env) → Quiet Nowhere (hosts_tool env)
unfolding hosts_tool
hosts_tool-Quiet env =
    Quiet-bind _ _ (reload_and_audit-Quiet env)
      (λ _. Quiet-bind _ _ (Quiet-gets _) (λ h. Quiet-pure _))

module _ {Q : Dict SessionState → Type 0} {tool : Text} {A : Type 0} where
  -- the rest of a tool, once an argument is there
  with_argument :
      (o : Option Text) (f : Text → M A)
      → ((a : Text) → Tells Q tool (f a))
      → Tells Q tool (argument o >>= f)
  with_argument o f hf = Tells-bind _ _ (Tells-Quiet (argument-Quiet o)) hf

module _ {Q : Dict SessionState → Type 0} where
  pub put_tool-Tells : (env : Env) (args : Args) → Tells Q (codes "put") (put_tool env args)
  unfolding put_tool
  put_tool-Tells env args = with_argument _ _ (λ host. with_argument _ _ (λ l.
      with_argument _ _
        (λ r. Tells-bind _ _ (put_file-Tells env host l r _) (λ t. Tells-Quiet (Quiet-pure _)))))

  pub get_tool-Tells : (env : Env) (args : Args) → Tells Q (codes "get") (get_tool env args)
  unfolding get_tool
  get_tool-Tells env args = with_argument _ _ (λ host.
      with_argument _ _
        (λ r. Tells-bind _ _ (get_file-Tells env host r _ _ _) (λ t. Tells-Quiet (Quiet-pure _))))

module _ (env : Env) (ticks : Ticks env) (name : Text) where
  abbrev Ends : {A : Type 0} → M A → Type 0
  Ends m = Tells (λ _. Unit) name m

  answered :
      {A : Type 0} {m : M A} (f : A → M Answer)
      → Settles env 0 m
      → ((a : A) → Quiet Nowhere (f a))
      → Ends (m >>= f)
  answered f settles quiet = Tells-bind _ f (Tells-Settles env settles) (λ a. Tells-Quiet (quiet a))

  session_run_tool-Ends : (args : Args) → Ends (session_run_tool env args)
  unfolding session_run_tool
  session_run_tool-Ends args = with_argument _ _ (λ sid. with_argument _ _ (λ command.
      answered _ (run-Settles env ticks _ (timeout_of args.timeout) (omega arith) sid command _)
        (λ r. Quiet-pure _)))

  session_wait_tool-Ends : (args : Args) → Ends (session_wait_tool env args)
  unfolding session_wait_tool
  session_wait_tool-Ends args = with_argument _ _ (λ sid.
      answered _ (wait-Settles env ticks _ (timeout_of args.timeout) (omega arith) sid)
        (λ r. Quiet-pure _))

  session_kill_tool-Ends : (args : Args) → Ends (session_kill_tool env args)
  unfolding session_kill_tool
  session_kill_tool-Ends args =
      with_argument _ _ (λ sid. answered _ (kill-Settles env ticks sid) (λ r. Quiet-pure _))

  session_reset_tool-Ends : (args : Args) → Ends (session_reset_tool env args)
  unfolding session_reset_tool
  session_reset_tool-Ends args =
      with_argument _ _ (λ sid. answered _ (reset-Settles env ticks sid) (λ r. Quiet-pure _))

  session_list_tool-Ends : Ends session_list_tool
  unfolding session_list_tool
  session_list_tool-Ends = answered _ (list_sessions-Settles env ticks) (λ r. Quiet-pure _)

  -- a branch of `dispatch`, under its name
  by_name :
      (tool : Text) (m n : M Answer)
      → (name ≡ tool → Ends m)
      → Ends n
      → Ends (if text_eq name tool then m else n)
  by_name tool m n hm hn = elim (Bool-cases (text_eq name tool)) [
    | inl same ↦ rw same (hm (text_eq_sound name tool same))
    | inr other ↦ rw other hn
  ]

  pub dispatch-Tells : (args : Args) → Ends (dispatch env name args)
  unfolding dispatch
  dispatch-Tells args = Tells-if _ _ _ (Tells-Quiet (hosts_tool-Quiet env)) (
      Tells-if _ _ _ session_list_tool-Ends (
        Tells-if _ _ _ (session_run_tool-Ends args) (
          Tells-if _ _ _ (session_wait_tool-Ends args) (
            Tells-if _ _ _ (session_kill_tool-Ends args) (
              Tells-if _ _ _ (session_reset_tool-Ends args) (
                by_name (codes "put") _ _ (λ e. rw e (put_tool-Tells env args))
                  (by_name (codes "get") _ _ (λ e. rw e (get_tool-Tells env args))
                    (Tells-Quiet (Quiet-throw _ refl)))))))))
