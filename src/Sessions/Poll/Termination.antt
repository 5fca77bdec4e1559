-- ===== src/Sessions/Poll/Termination.antt =====
-- The loop of `_poll` of sessions.py, under a clock that goes on.
use tai_mcp_ssh.Prelude.{
  ℕ, zero, suc, ◌+◌, ◌≤◌, ◌<◌, Option, none, some, refl, Text, arith, leb, if◌then◌else◌,
  Bool-cases, inl, inr, get, text_eq, false, ◌≡◌,
}
use tai_mcp_ssh.Process.{Process, Env, M, ask, ◌>>=◌}
use tai_mcp_ssh.Process.Settles.{
  Settles-Quiet, Ticks, Settles, Settles-pure, Settles-throw, Settles-ask, Settles-modify,
  Settles-record_event, Settles-bind, Settles-now,
}
use tai_mcp_ssh.Prelude.Int.{ℤ}
use tai_mcp_ssh.Errors.{Calm}
use tai_mcp_ssh.Audit.Value.{text}
use tai_mcp_ssh.Audit.Failures.{is_internal, is_failed, is_failure}
use tai_mcp_ssh.Ssh.Connection.Frame.{run-Quiet}
use tai_mcp_ssh.Sessions.Prompt.{Status, done, still_running, needs_password, needs_input, busy}
use tai_mcp_ssh.Sessions.State.{RunResult, SessionState}
use tai_mcp_ssh.Sessions.Poll.{
  store, read_log, status_text, event_fields, audit_event, duration, clear_state, finish, hand_off,
  time_out, unless_prompt, decide, poll_loop, start_poll, poll_with, poll,
}

-- a poll records none of the two failures
status_succeeds : (status : Status) → is_failed (some (text (status_text status))) ≡ false
unfolding status_text text_eq
status_succeeds done = refl
status_succeeds still_running = refl
status_succeeds needs_password = refl
status_succeeds needs_input = refl
status_succeeds busy = refl

event_succeeds :
    (tool : Text) (st : SessionState) (r : RunResult) (ms : Option ℤ)
    → is_failure (record { tool = tool; host = some st.host; fields = event_fields st r ms })
      ≡ false
unfolding event_fields get text_eq
event_succeeds tool st r ms = elim (Bool-cases (is_internal tool)) [
  | inl e ↦ rw e refl
  | inr e ↦ rw e (status_succeeds r.status)
]

module _ (env : Env) (ticks : Ticks env) where
  module _ {n : ℕ} where
    pub store-Settles : (st : SessionState) → Settles env n (store st)
    unfolding store
    store-Settles st =
        Settles-bind env _ _ (Settles-modify env _ (λ s. (refl, refl))) (λ _. Settles-pure env st)

    read_log-Settles :
        (id : ℕ) (log_path : Text) (st : SessionState) → Settles env n (read_log env id log_path st)
    unfolding read_log
    read_log-Settles id log_path st =
        Settles-bind env _ _ (Settles-Quiet env ticks (run-Quiet env id _ _ _))
          (λ c. store-Settles _)

    duration-Settles : (started : Option ℕ) → Settles env n (duration env started)
    unfolding duration
    duration-Settles none = Settles-pure env _
    duration-Settles (some t) =
        Settles-bind env _ _ (Settles-ask env ticks _) (λ _. Settles-pure env _)

    audit_event-Settles :
        (tool : Text) (st : SessionState) (r : RunResult)
        → Settles env n (audit_event env tool st r)
    unfolding audit_event
    audit_event-Settles tool st r =
        Settles-bind env _ _ (duration-Settles _)
          (λ ms. Settles-record_event env _ _ _ (event_succeeds tool st r ms))

    pub clear_state-Settles : (st : SessionState) → Settles env n (clear_state env st)
    unfolding clear_state
    clear_state-Settles st = Settles-bind env _ _ (Settles-ask env ticks _) (λ _. store-Settles _)

  module _ (id : ℕ) (tool log_id log_path : Text) where
    module _ {n : ℕ} where
      finish-Settles :
          (st : SessionState) (exit : ℕ)
          → Settles env n (finish env id tool log_id log_path st exit)
      unfolding finish
      finish-Settles st exit =
          Settles-bind env _ _ (audit_event-Settles _ _ _)
            (λ _. Settles-bind env _ _ (clear_state-Settles st) (λ _. Settles-pure env _))

      hand_off-Settles :
          (st : SessionState) (p : Status × Text)
          → Settles env n (hand_off env id tool log_id log_path st p)
      unfolding hand_off
      hand_off-Settles st p =
          Settles-bind env _ _ (audit_event-Settles _ _ _) (λ _. Settles-pure env _)

      time_out-Settles :
          (st : SessionState) → Settles env n (time_out env id tool log_id log_path st)
      unfolding time_out
      time_out-Settles st =
          Settles-bind env _ _ (audit_event-Settles _ _ _) (λ _. Settles-pure env _)

    after_deadline-Settles :
        (timeout call_start fuel now : ℕ) (st : SessionState) (again : M RunResult)
        → call_start + timeout ≤ now + fuel
        → (suc now ≤ call_start + timeout
            → call_start + timeout < suc now + fuel
            → Settles env (suc now) again)
        → Settles env (suc now) (
            if leb (call_start + timeout) now
            then time_out env id tool log_id log_path st
            else (ask (λ t. tt {0}) >>= λ _. again))
    after_deadline-Settles timeout call_start fuel now st again enough next =
        elim (Bool-cases (leb (call_start + timeout) now)) [
          | inl e ↦ rw e (time_out-Settles st)
          | inr e ↦ rw e (
              Settles-bind env _ _ (Settles-ask env ticks _)
                (λ _. next (ground (arith, e)) (omega arith)))
        ]

    unless_prompt-Settles :
        (timeout call_start fuel n : ℕ) (again : SessionState → M RunResult) (st : SessionState)
        (prompt : Option (Status × Text))
        → call_start + timeout ≤ n + fuel
        → ((m : ℕ)
            → m ≤ call_start + timeout
            → call_start + timeout < m + fuel
            → Settles env m (again st))
        → Settles env n
            (unless_prompt env id tool log_id log_path timeout call_start again st prompt)
    unfolding unless_prompt
    unless_prompt-Settles timeout call_start fuel n again st (some p) enough next =
        hand_off-Settles st p
    unless_prompt-Settles timeout call_start fuel n again st none enough next =
        Settles-now env _ ticks (λ now late.
          after_deadline-Settles timeout call_start fuel now st (again st) (omega arith)
            (next (suc now)))

    decide-Settles :
        (timeout call_start fuel n : ℕ) (again : SessionState → M RunResult) (st : SessionState)
        (exit : Option ℕ)
        → call_start + timeout ≤ n + fuel
        → ((m : ℕ)
            → m ≤ call_start + timeout
            → call_start + timeout < m + fuel
            → Settles env m (again st))
        → Settles env n (decide env id tool log_id log_path timeout call_start again st exit)
    unfolding decide
    decide-Settles timeout call_start fuel n again st (some exit) enough next =
        finish-Settles st exit
    decide-Settles timeout call_start fuel n again st none enough next =
        unless_prompt-Settles timeout call_start fuel n again st _ enough next

    poll_loop-Settles :
        (timeout call_start fuel n : ℕ) (st : SessionState)
        → call_start + timeout ≤ n + fuel
        → Settles env n (poll_loop env id tool log_id log_path timeout call_start (suc fuel) st)
    unfolding poll_loop
    poll_loop-Settles timeout call_start zero n st enough =
        Settles-bind env _ _ (read_log-Settles id log_path st) (λ st₁.
          Settles-bind env _ _ (store-Settles _) (λ st₂.
            decide-Settles timeout call_start zero n _ st₂ _ enough
              (λ m a b. absurd (omega arith))))
    poll_loop-Settles timeout call_start (suc fuel) n st enough =
        Settles-bind env _ _ (read_log-Settles id log_path st) (λ st₁.
          Settles-bind env _ _ (store-Settles _) (λ st₂.
            decide-Settles timeout call_start (suc fuel) n _ st₂ _ enough
              (λ m a b. poll_loop-Settles timeout call_start fuel m st₂ (omega arith))))

  start_poll-Settles :
      (id : ℕ) (tool log_id log_path : Text) (fuel timeout n : ℕ) (st : SessionState)
      → timeout < fuel
      → Settles env n (start_poll env id tool log_id log_path fuel timeout st)
  unfolding start_poll
  start_poll-Settles id tool log_id log_path (suc fuel) timeout n st enough =
      Settles-now env _ ticks (λ now _.
        poll_loop-Settles id tool log_id log_path timeout now fuel (suc now) st (omega arith))
  start_poll-Settles id tool log_id log_path zero timeout n st enough = absurd (omega arith)

  poll_with-Settles :
      (id : ℕ) (tool : Text) (fuel timeout n : ℕ) (st : SessionState) (a b : Option Text)
      → timeout < fuel
      → Settles env n (poll_with env id fuel timeout tool st a b)
  unfolding poll_with
  poll_with-Settles id tool fuel timeout n st (some a) (some b) enough =
      start_poll-Settles id tool a b fuel timeout n st enough
  poll_with-Settles id tool fuel timeout n st (some a) none enough = Settles-throw env _ refl
  poll_with-Settles id tool fuel timeout n st none b enough = Settles-throw env _ refl

pub poll-Settles :
    (env : Env) (n id fuel timeout : ℕ) (tool : Text) (st : SessionState)
    → Ticks env
    → timeout < fuel
    → Settles env n (poll env id fuel timeout tool st)
unfolding poll
poll-Settles env n id fuel timeout tool st ticks enough =
    poll_with-Settles env ticks id tool fuel timeout n st st.log_id st.log_path enough

-- If each outside call takes at least a microsecond and the fuel exceeds the timeout in
-- microseconds, `_poll` ends with a result or an exception on every state, whatever the remote host
-- answers, and an exception is not marked as audited.
pub poll-Calm :
    (env : Env) (id fuel timeout : ℕ) (tool : Text) (st : SessionState) (s : Process)
    → Ticks env
    → timeout < fuel
    → Calm (poll env id fuel timeout tool st s).0
poll-Calm env id fuel timeout tool st s ticks enough =
    ((poll-Settles env 0 id fuel timeout tool st ticks enough).at s (omega arith)).0
