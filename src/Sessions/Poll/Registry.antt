-- ===== src/Sessions/Poll/Registry.antt =====
-- The invariant of the session registry under `_poll` of sessions.py.
use tai_mcp_ssh.Prelude.{
  ℕ, zero, suc, Option, none, some, List, [], ◌∷◌, ◌++◌, ◌≡◌, refl, ap, ◌∙◌, sym, Text, put, length,
  arith, Bool-cases, inl, inr, length-append,
}
use mathlib.Core.Path.{subst}
use tai_mcp_ssh.Str.Utf8.{ready, decode}
use tai_mcp_ssh.Str.Utf8.Chunks.{go_on, decode-append}
use tai_mcp_ssh.Process.{Process, Env, Completed, M, modify}
use tai_mcp_ssh.Process.Keeps.{
  Keeps, Keeps-bind, Keeps-then, Keeps-pure, Keeps-throw, Keeps-out_of_fuel, Keeps-if, Gives,
  Gives-pure, Gives-then, Gives-any,
}
use tai_mcp_ssh.Process.Frame.{Keeps-Quiet, On, On-ask, On-record_event}
use tai_mcp_ssh.Ssh.Connection.{ok_status}
use tai_mcp_ssh.Ssh.Connection.Frame.{run-Quiet}
use tai_mcp_ssh.Sessions.Prompt.{Status, detect_prompt}
use tai_mcp_ssh.Sessions.State.{RunResult, SessionState, cleared}
use tai_mcp_ssh.Sessions.State.Registry.{
  Registry, IsSane, IsRunning, LogRead, Phase, idle, running, Registry-put, cleared-IsSane,
}
use tai_mcp_ssh.Sessions.Poll.{
  store, raw_bytes, with_bytes, with_answer, read_log, audit_event, duration, clear_state, finish,
  hand_off, time_out, unless_prompt, decide, poll_loop, start_poll, poll_with, poll,
}

abbrev pub Sane : Process → Type 0
Sane = On Registry

pub store-Gives :
    (R : SessionState → Type 0) (sid : Text) (st : SessionState)
    → IsSane sid st
    → R st
    → Gives Sane R (store st)
unfolding store
store-Gives R sid st sane r = Gives-then R _ _ (Gives-any _ put_it) (λ _ _. Gives-pure R st r)
  where
    put_it : Keeps Sane (modify (λ s. record s { sessions = put st.session_id st s.sessions }))
    put_it =
        unfold modify in
        record {
          at = λ s h. record {
            holds =
                Registry-put st.session_id st s.sessions
                  (subst (λ k. IsSane k st) (sym sane.registered) sane) h.holds;
          };
        }

phase_of_same :
    (st st' : SessionState)
    → st'.log_id ≡ st.log_id
    → st'.log_path ≡ st.log_path
    → st'.started_at ≡ st.started_at
    → st'.command ≡ st.command
    → IsRunning st
    → IsRunning st'
phase_of_same st st' a b c d r = record {
  log_id = r.log_id;
  log_path = r.log_path;
  started_at = r.started_at;
  command = r.command;
  has_id = a ∙ r.has_id;
  has_path = b ∙ r.has_path;
  has_start = c ∙ r.has_start;
  has_command = d ∙ r.has_command;
}

with_bytes-LogRead : (bs : List ℕ) (st : SessionState) → LogRead st → LogRead (with_bytes bs st)
unfolding with_bytes
with_bytes-LogRead [] st l = l
with_bytes-LogRead (b ∷ bs) st l = record {
  raw = l.raw ++ b ∷ bs;
  counted = omega (arith, l.counted, length-append l.raw (b ∷ bs));
  decoded = decode-append ready l.raw (b ∷ bs) ∙ ap (λ r. go_on r (b ∷ bs)) l.decoded;
  scanned = omega (arith, l.scanned, length-append st.log_text (decode st.log_decoder (b ∷ bs)).1);
}

with_bytes_same :
    (bs : List ℕ) (st : SessionState)
    → ((with_bytes bs st).session_id ≡ st.session_id)
      × ((with_bytes bs st).host ≡ st.host)
      × ((with_bytes bs st).name ≡ st.name)
      × ((with_bytes bs st).log_id ≡ st.log_id)
      × ((with_bytes bs st).log_path ≡ st.log_path)
      × ((with_bytes bs st).started_at ≡ st.started_at)
      × ((with_bytes bs st).command ≡ st.command)
unfolding with_bytes
with_bytes_same [] st = (refl, refl, refl, refl, refl, refl, refl)
with_bytes_same (b ∷ bs) st = (refl, refl, refl, refl, refl, refl, refl)

-- A sane session with a command in flight.
abbrev pub Live : Text → SessionState → Type 0
Live sid st = IsSane sid st × IsRunning st

pub IsRunning-of_id :
    {sid : Text} {st : SessionState} {log_id : Text}
    → IsSane sid st
    → st.log_id ≡ some log_id
    → IsRunning st
IsRunning-of_id {st = st} h e = pick h.phase
  where
    pick : Phase st → IsRunning st
    pick (idle i) = cc (i.no_id, e)
    pick (running r) = r

with_bytes-Live :
    (bs : List ℕ) (sid : Text) (st : SessionState) → Live sid st → Live sid (with_bytes bs st)
with_bytes-Live bs sid st (h, r) =
    let (a, b, c, d, e, f, g) = with_bytes_same bs st in
    let live = phase_of_same st (with_bytes bs st) d e f g r in
    (
      record {
        registered = a ∙ h.registered;
        parsed = rw (b, c) h.parsed;
        phase = running live;
        log = with_bytes-LogRead bs st h.log;
      },
      live,
    )

with_answer-Live :
    (c : Completed) (sid : Text) (st : SessionState) → Live sid st → Live sid (with_answer c st)
unfolding with_answer
with_answer-Live c sid st h = elim (Bool-cases (ok_status c.status)) [
  | inl e ↦ rw e (with_bytes-Live (raw_bytes c.stdout) sid st h)
  | inr e ↦ rw e h
]

scanned-Live :
    (sid : Text) (st : SessionState)
    → Live sid st
    → Live sid (record st { scan_pos = length st.log_text })
scanned-Live sid st (h, r) =
    let live =
      phase_of_same st (record st { scan_pos = length st.log_text }) refl refl refl refl r in
    (
      record {
        registered = h.registered;
        parsed = h.parsed;
        phase = running live;
        log = record {
          raw = h.log.raw;
          counted = h.log.counted;
          decoded = h.log.decoded;
          scanned = omega arith;
        };
      },
      live,
    )

read_log-Gives :
    (env : Env) (id : ℕ) (log_path sid : Text) (st : SessionState)
    → Live sid st
    → Gives Sane (Live sid) (read_log env id log_path st)
unfolding read_log
read_log-Gives env id log_path sid st h =
    Gives-then (Live sid) _ _ (Gives-any _ (Keeps-Quiet (run-Quiet env id _ _ _))) (λ c _.
      store-Gives (Live sid) sid (with_answer c st) (with_answer-Live c sid st h).0
        (with_answer-Live c sid st h))

duration-On : (env : Env) (o : Option ℕ) → Keeps Sane (duration env o)
unfolding duration
duration-On env none = Keeps-pure none
duration-On env (some t) = Keeps-bind _ _ (On-ask _) (λ now. Keeps-pure _)

audit_event-On :
    (env : Env) (tool : Text) (st : SessionState) (r : RunResult)
    → Keeps Sane (audit_event env tool st r)
unfolding audit_event
audit_event-On env tool st r =
    Keeps-bind _ _ (duration-On env st.started_at) (λ ms. On-record_event _ _ _)

pub clear_state-Keeps :
    (env : Env) (sid : Text) (st : SessionState) → IsSane sid st → Keeps Sane (clear_state env st)
unfolding clear_state
clear_state-Keeps env sid st h = Keeps-bind _ _ (On-ask _) (λ now. record {
  at = λ s p.
      ((store-Gives (IsSane sid) sid (cleared now st) (cleared-IsSane now sid st h)
          (cleared-IsSane now sid st h)).at
        s p).0;
})

module _ (env : Env) (id : ℕ) (tool log_id log_path sid : Text) where
  finish-Keeps :
      (st : SessionState) (exit : ℕ)
      → IsSane sid st
      → Keeps Sane (finish env id tool log_id log_path st exit)
  unfolding finish
  finish-Keeps st exit h =
      Keeps-bind _ _ (audit_event-On env tool st _)
        (λ _. Keeps-bind _ _ (clear_state-Keeps env sid st h) (λ _. Keeps-pure _))

  hand_off-Keeps :
      (st : SessionState) (p : Status × Text)
      → Keeps Sane (hand_off env id tool log_id log_path st p)
  unfolding hand_off
  hand_off-Keeps st (status, prompt) =
      Keeps-bind _ _ (audit_event-On env tool st _) (λ _. Keeps-pure _)

  time_out-Keeps : (st : SessionState) → Keeps Sane (time_out env id tool log_id log_path st)
  unfolding time_out
  time_out-Keeps st = Keeps-bind _ _ (audit_event-On env tool st _) (λ _. Keeps-pure _)

  unless_prompt-Keeps :
      (timeout call_start : ℕ) (again : SessionState → M RunResult) (st : SessionState)
      (o : Option (Status × Text))
      → Keeps Sane (again st)
      → Keeps Sane (unless_prompt env id tool log_id log_path timeout call_start again st o)
  unfolding unless_prompt
  unless_prompt-Keeps timeout call_start again st (some p) k = hand_off-Keeps st p
  unless_prompt-Keeps timeout call_start again st none k =
      Keeps-bind _ _ (On-ask _)
        (λ now. Keeps-if _ _ _ (time_out-Keeps st) (Keeps-bind _ _ (On-ask _) (λ _. k)))

  decide-Keeps :
      (timeout call_start : ℕ) (again : SessionState → M RunResult) (st : SessionState)
      (found : Option ℕ)
      → IsSane sid st
      → Keeps Sane (again st)
      → Keeps Sane (decide env id tool log_id log_path timeout call_start again st found)
  unfolding decide
  decide-Keeps timeout call_start again st (some exit) h k = finish-Keeps st exit h
  decide-Keeps timeout call_start again st none h k =
      unless_prompt-Keeps timeout call_start again st (detect_prompt st.log_text) k

  poll_loop-Keeps :
      (timeout call_start fuel : ℕ) (st : SessionState)
      → Live sid st
      → Keeps Sane (poll_loop env id tool log_id log_path timeout call_start fuel st)
  unfolding poll_loop
  poll_loop-Keeps timeout call_start zero st h = Keeps-out_of_fuel
  poll_loop-Keeps timeout call_start (suc fuel) st h =
      Keeps-then {R = Live sid} _ _ (read_log-Gives env id log_path sid st h) (λ st₁ h₁.
        Keeps-then {R = Live sid} _ _
          (store-Gives (Live sid) sid (record st₁ { scan_pos = length st₁.log_text })
            (scanned-Live sid st₁ h₁).0 (scanned-Live sid st₁ h₁))
          (λ st₂ h₂.
            decide-Keeps timeout call_start
              (poll_loop env id tool log_id log_path timeout call_start fuel) st₂ _ h₂.0
              (poll_loop-Keeps timeout call_start fuel st₂ h₂)))

pub poll-Keeps :
    (env : Env) (id fuel timeout : ℕ) (tool sid : Text) (st : SessionState)
    → IsSane sid st
    → Keeps Sane (poll env id fuel timeout tool st)
unfolding poll start_poll
poll-Keeps env id fuel timeout tool sid st h = with_ids st.log_id st.log_path refl
  where
    with_ids :
        (a b : Option Text) → st.log_id ≡ a → Keeps Sane (poll_with env id fuel timeout tool st a b)
    with_ids (some log_id) (some log_path) e = Keeps-bind _ _ (On-ask _) (λ call_start.
        poll_loop-Keeps env id tool log_id log_path sid timeout call_start fuel st
          (h, IsRunning-of_id h e))
    with_ids none b e = Keeps-throw _
    with_ids (some log_id) none e = Keeps-throw _
