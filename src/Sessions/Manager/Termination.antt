-- ===== src/Sessions/Manager/Termination.antt =====
-- The operations of `SessionManager` of sessions.py, under a clock that goes on.
use tai_mcp_ssh.Prelude.{
  ℕ, ◌<◌, Bool, true, false, Option, none, some, Text, ◌≡◌, refl, inl, inr, get, text_eq,
}
use tai_mcp_ssh.Errors.{Exc, host_unreachable, audited}
use tai_mcp_ssh.Process.{Env}
use tai_mcp_ssh.Errors.{Calm}
use tai_mcp_ssh.Process.Settles.{
  Ticks, Settles, Settles-Quiet, Settles-pure, Settles-throw, Settles-lift, Settles-gets,
  Settles-ask, Settles-modify, Settles-record_event, Settles-bind, Settles-catch, Settles-if,
}
use tai_mcp_ssh.Ssh.Connection.Frame.{run-Quiet, home_dir-Quiet}
use tai_mcp_ssh.Ssh.Pool.Frame.{get_conn-Quiet}
use tai_mcp_ssh.Sessions.Id.{parse_session_id}
use tai_mcp_ssh.Sessions.Id.Parse.{parse_cases}
use tai_mcp_ssh.Sessions.State.{SessionState}
use tai_mcp_ssh.Sessions.Poll.Termination.{poll-Settles, store-Settles, clear_state-Settles}
use tai_mcp_ssh.Sessions.Manager.{
  forget, send_command, state_or_new, try_send, audit_created, start_command, refuse_or_start,
  forget_unreachable, run, idle_or_poll, wait, not_killed, kill, reset_log, reset_state, reset,
  list_sessions,
}

parse-Calm : (sid : Text) → Calm (parse_session_id sid)
parse-Calm sid = elim (parse_cases sid) [ inl e ↦ rw e refl | inr (host, name, e) ↦ rw e tt ]

module _ (env : Env) (ticks : Ticks env) {n : ℕ} where
  forget-Settles : (sid : Text) → Settles env n (forget sid)
  unfolding forget
  forget-Settles sid = Settles-modify env _ (λ s. (refl, refl))

  send_command-Settles :
      (id : ℕ) (name log_path log_id command : Text)
      → Settles env n (send_command env id name log_path log_id command)
  unfolding send_command
  send_command-Settles id name log_path log_id command =
      Settles-bind env _ _ (Settles-Quiet env ticks (run-Quiet env id _ _ _)) (λ c.
        Settles-bind env _ _ (Settles-Quiet env ticks (run-Quiet env id _ _ _)) (λ _.
          Settles-bind env _ _ (Settles-Quiet env ticks (run-Quiet env id _ _ _))
            (λ _. Settles-pure env _)))

  state_or_new-Settles :
      (sid host name : Text) (o : Option SessionState)
      → Settles env n (state_or_new env sid host name o)
  unfolding state_or_new
  state_or_new-Settles sid host name (some st) = Settles-pure env st
  state_or_new-Settles sid host name none =
      Settles-bind env _ _ (Settles-ask env ticks _) (λ now. store-Settles env ticks _)

  try_send-Settles :
      (id : ℕ) (name log_path log_id command : Text) (st : SessionState)
      → Settles env n (try_send env id name log_path log_id command st)
  unfolding try_send
  try_send-Settles id name log_path log_id command st =
      Settles-catch env _ _ (send_command-Settles id name log_path log_id command) (λ e h.
        Settles-bind env _ _ (clear_state-Settles env ticks st) (λ _. Settles-throw env e h))

  audit_created-Settles : (b : Bool) (host sid : Text) → Settles env n (audit_created b host sid)
  unfolding audit_created
  audit_created-Settles true host sid = Settles-record_event env _ _ _ refl
  audit_created-Settles false host sid = Settles-pure env tt

  forget_unreachable-Settles :
      (sid : Text) (e : Exc) → audited e ≡ false → Settles env n (forget_unreachable sid e)
  unfolding forget_unreachable
  forget_unreachable-Settles sid host_unreachable h =
      Settles-bind env _ _ (forget-Settles sid) (λ _. Settles-throw env _ refl)
  forget_unreachable-Settles sid e h = Settles-throw env _ h

  module _ (fuel timeout : ℕ) (enough : timeout < fuel) where
    start_command-Settles :
        (id : ℕ) (sid host name command : Text) (reason : Option Text) (o : Option SessionState)
        → Settles env n (start_command env id fuel timeout sid host name command reason o)
    unfolding start_command
    start_command-Settles id sid host name command reason o =
        Settles-bind env _ _ (state_or_new-Settles sid host name o) (λ st.
          Settles-bind env _ _ (Settles-ask env ticks _) (λ log_id.
            Settles-bind env _ _ (Settles-Quiet env ticks (home_dir-Quiet id)) (λ home.
              Settles-bind env _ _ (Settles-ask env ticks _) (λ now.
                Settles-bind env _ _ (store-Settles env ticks _) (λ st₁.
                  Settles-bind env _ _ (try_send-Settles id name _ log_id command st₁) (λ created.
                    Settles-bind env _ _ (audit_created-Settles created host sid)
                      (λ _. poll-Settles env n id fuel timeout _ st₁ ticks enough)))))))

    refuse_or_start-Settles :
        (id : ℕ) (sid host name command : Text) (reason : Option Text) (o : Option SessionState)
        → Settles env n (refuse_or_start env id fuel timeout sid host name command reason o)
    unfolding refuse_or_start
    refuse_or_start-Settles id sid host name command reason none =
        start_command-Settles id sid host name command reason none
    refuse_or_start-Settles id sid host name command reason (some st) =
        Settles-if env _ _ _ (Settles-pure env _)
          (start_command-Settles id sid host name command reason (some st))

    pub run-Settles :
        (sid command : Text) (reason : Option Text)
        → Settles env n (run env fuel timeout sid command reason)
    unfolding run
    run-Settles sid command reason =
        Settles-bind env _ _ (Settles-lift env _ (parse-Calm sid)) (λ p.
          Settles-catch env _ _
            (Settles-bind env _ _ (Settles-Quiet env ticks (get_conn-Quiet env p.0)) (λ id.
              Settles-bind env _ _ (Settles-gets env _)
                (λ o. refuse_or_start-Settles id sid p.0 p.1 command reason o)))
            (forget_unreachable-Settles sid))

    idle_or_poll-Settles :
        (id : ℕ) (sid : Text) (o : Option SessionState)
        → Settles env n (idle_or_poll env id fuel timeout sid o)
    unfolding idle_or_poll
    idle_or_poll-Settles id sid none = Settles-pure env _
    idle_or_poll-Settles id sid (some st) =
        Settles-if env _ _ _ (poll-Settles env n id fuel timeout _ st ticks enough)
          (Settles-pure env _)

    pub wait-Settles : (sid : Text) → Settles env n (wait env fuel timeout sid)
    unfolding wait
    wait-Settles sid = Settles-bind env _ _ (Settles-lift env _ (parse-Calm sid)) (λ p.
        Settles-catch env _ _
          (Settles-bind env _ _ (Settles-Quiet env ticks (get_conn-Quiet env p.0))
            (λ id. Settles-bind env _ _ (Settles-gets env _) (λ o. idle_or_poll-Settles id sid o)))
          (forget_unreachable-Settles sid))

  not_killed-Settles : (e : Exc) → audited e ≡ false → Settles env n (not_killed e)
  unfolding not_killed
  not_killed-Settles host_unreachable h = Settles-pure env _
  not_killed-Settles e h = Settles-throw env _ h

  pub kill-Settles : (sid : Text) → Settles env n (kill env sid)
  unfolding kill get text_eq
  kill-Settles sid = Settles-bind env _ _ (Settles-lift env _ (parse-Calm sid)) (λ p.
      Settles-bind env _ _
        (Settles-catch env _ _
          (Settles-bind env _ _ (Settles-Quiet env ticks (get_conn-Quiet env p.0)) (λ id.
            Settles-bind env _ _ (Settles-Quiet env ticks (run-Quiet env id _ _ _))
              (λ c. Settles-pure env _)))
          not_killed-Settles)
        (λ killed. Settles-bind env _ _ (forget-Settles sid) (λ _.
          Settles-bind env _ _ (Settles-record_event env _ _ _ refl) (λ _. Settles-pure env _))))

  reset_log-Settles :
      (sid : Text) (st : SessionState) (o : Option Text) → Settles env n (reset_log env sid st o)
  unfolding reset_log get text_eq
  reset_log-Settles sid st none = Settles-pure env _
  reset_log-Settles sid st (some log_id) =
      Settles-bind env _ _ (Settles-record_event env _ _ _ refl)
        (λ _. Settles-bind env _ _ (clear_state-Settles env ticks st) (λ _. Settles-pure env _))

  reset_state-Settles :
      (sid : Text) (o : Option SessionState) → Settles env n (reset_state env sid o)
  unfolding reset_state
  reset_state-Settles sid none = Settles-pure env _
  reset_state-Settles sid (some st) = reset_log-Settles sid st st.log_id

  pub reset-Settles : (sid : Text) → Settles env n (reset env sid)
  unfolding reset
  reset-Settles sid =
      Settles-bind env _ _ (Settles-lift env _ (parse-Calm sid))
        (λ p. Settles-bind env _ _ (Settles-gets env _) (λ o. reset_state-Settles sid o))

  pub list_sessions-Settles : Settles env n list_sessions
  unfolding list_sessions
  list_sessions-Settles = Settles-gets env _
