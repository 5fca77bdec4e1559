-- ===== src/Sessions/Poll.antt =====
-- `_read_log`, `_build_result`, `_audit_event` and `_poll` of sessions.py.
pub mod Registry
pub mod Termination
use tai_mcp_ssh.Prelude.{
  ℕ, zero, suc, ◌+◌, ◌-◌, ◌/◌, Bool, true, false, Option, none, some, List, [], ◌∷◌, ◌++◌, leb,
  ◌==◌, if◌then◌else◌, Text, codes, length, Dict, put,
}
use tai_mcp_ssh.Prelude.Int.{ℤ, pos, negsuc, sub_ℕ}
use tai_mcp_ssh.Str.Utf8.{decode, encode}
use tai_mcp_ssh.Errors.{Exc, other_error}
use tai_mcp_ssh.Audit.Value.{Value, text, number, flag, optional_text, optional_number}
use tai_mcp_ssh.Process.{
  Stream, str, bytes, missing, Completed, Env, Process, M, pure, throw, gets, ask, modify,
  out_of_fuel, record_event, ◌>>=◌, ◌>>◌,
}
use tai_mcp_ssh.Ssh.Connection.{run, ok_status}
use tai_mcp_ssh.Sessions.Prompt.{
  Status, done, still_running, needs_password, needs_input, busy, detect_prompt,
}
use tai_mcp_ssh.Sessions.Sentinel.{overlap, search_done, extract_output, extract_partial_output}
use tai_mcp_ssh.Sessions.Slice.{Slice, slice_output}
use tai_mcp_ssh.Sessions.State.{RunResult, SessionState, cleared}
use tai_mcp_ssh.Sessions.Commands.{tail_command, attach_hint}

-- The state object is in the registry: what is changed in it is changed there.
unfoldable pub store : SessionState → M SessionState
store st = do modify (λ s. record s { sessions = put st.session_id st s.sessions }); pure st

-- the bytes of an answer
unfoldable pub raw_bytes : Stream → List ℕ
raw_bytes missing = []
raw_bytes (bytes raw) = raw
raw_bytes (str s) = encode s

-- the state with the new bytes read; nothing changes if there are none
unfoldable pub with_bytes : List ℕ → SessionState → SessionState
with_bytes [] st = st
with_bytes (b ∷ bs) st =
    let (d, t) = decode st.log_decoder (b ∷ bs) in
    record st {
      log_offset = st.log_offset + length (b ∷ bs);
      log_text = st.log_text ++ t;
      log_decoder = d;
    }

-- what an answer to `tail` adds; the file may not exist yet
unfoldable pub with_answer : Completed → SessionState → SessionState
unfolding raw_bytes with_bytes
with_answer c st = if ok_status c.status then with_bytes (raw_bytes c.stdout) st else st

-- `_read_log`; the state afterwards holds the text
unfoldable pub read_log : Env → ℕ → Text → SessionState → M SessionState
unfolding with_answer store
read_log env id log_path st = do
  c ← run env id (tail_command st.log_offset log_path) false true
  store (with_answer c st)

unfoldable pub build_result :
    SessionState → Text → Text → Text → Status → Option ℕ → Option Text → Option Text → RunResult
build_result st log_id log_path output status exit hint prompt =
    let s = slice_output output in
    record {
      session_id = st.session_id;
      status = status;
      head = s.head;
      tail = s.tail;
      bytes = length (encode output);
      truncated = s.truncated;
      log_id = log_id;
      log_path = log_path;
      exit = exit;
      attach_hint = hint;
      prompt = prompt;
    }

status_text : Status → Text
status_text done = codes "done"
status_text still_running = codes "still_running"
status_text needs_password = codes "needs_password"
status_text needs_input = codes "needs_input"
status_text busy = codes "busy"

is_password : Status → Bool
is_password needs_password = true
is_password _ = false

-- `int(seconds * 1000)`, from microseconds: towards zero. The exact quotient stands for the one that
-- the code computes in floating point, which can be one less where the division has no remainder.
milliseconds : ℤ → ℤ
milliseconds (pos n) = pos (n / 1000)
milliseconds (negsuc n) = sub_ℕ 0 (suc n / 1000)

duration : Env → Option ℕ → M (Option ℤ)
duration env none = pure none
duration env (some started) = do now ← ask env.now; pure (some (milliseconds (sub_ℕ now started)))

optional_exit : Option ℕ → Value
optional_exit none = optional_number none
optional_exit (some n) = number (pos n)

unfoldable pub event_fields : SessionState → RunResult → Option ℤ → Dict Value
unfolding status_text is_password optional_exit
event_fields st r ms =
    (codes "session", text st.session_id)
    ∷ (codes "cmd", optional_text st.command)
    ∷ (codes "reason", optional_text st.reason)
    ∷ (codes "exit", optional_exit r.exit)
    ∷ (codes "status", text (status_text r.status))
    ∷ (codes "duration_ms", optional_number ms)
    ∷ (codes "stdout_bytes", number (pos r.bytes))
    ∷ (codes "log_id", text r.log_id)
    ∷ (codes "truncated", flag r.truncated)
    ∷ (codes "needs_password", flag (is_password r.status))
    ∷ []

-- `_audit_event`
unfoldable pub audit_event : Env → Text → SessionState → RunResult → M (Unit {0})
unfolding duration milliseconds event_fields
audit_event env tool st r = do
  ms ← duration env st.started_at
  record_event tool (some st.host) (event_fields st r ms)

-- `_clear_state`
unfoldable pub clear_state : Env → SessionState → M SessionState
unfolding store
clear_state env st = do now ← ask env.now; store (cleared now st)

module _ (env : Env) (id : ℕ) (tool log_id log_path : Text) where
  -- 1. the sentinel was found
  unfoldable pub finish : SessionState → ℕ → M RunResult
  finish st exit =
      let output = extract_output st.log_text log_id in
      let r = build_result st log_id log_path output done (some exit) none none in
      do audit_event env tool st r; clear_state env st; pure r

  -- 2. a prompt was found
  unfoldable pub hand_off : SessionState → Status × Text → M RunResult
  hand_off st (status, prompt) =
      let output = extract_partial_output st.log_text log_id in
      let hint = attach_hint st.host st.name in
      let r = build_result st log_id log_path output status none (some hint) (some prompt) in
      do audit_event env tool st r; pure r

  -- 3. the time is up
  unfoldable pub time_out : SessionState → M RunResult
  time_out st =
      let output = extract_partial_output st.log_text log_id in
      let r = build_result st log_id log_path output still_running none none none in
      do audit_event env tool st r; pure r

  -- the marker in what is new since the last poll
  unfoldable pub scan : SessionState → Option ℕ
  scan st = search_done log_id (st.scan_pos - overlap) true st.log_text

  -- what happens where there is no marker, given the prompt that was found
  unfoldable pub unless_prompt :
      ℕ → ℕ → (SessionState → M RunResult) → SessionState → Option (Status × Text) → M RunResult
  unless_prompt timeout call_start again st (some p) = hand_off st p
  unless_prompt timeout call_start again st none = do
    now ← ask env.now
    if leb (call_start + timeout) now then time_out st else (do ask (λ t. tt); again st)

  -- the end of one round, given the marker that was found, and with what follows if the round does
  -- not return; times are microseconds, and the sleep is an outside call
  unfoldable pub decide :
      ℕ → ℕ → (SessionState → M RunResult) → SessionState → Option ℕ → M RunResult
  decide timeout call_start again st (some exit) = finish st exit
  decide timeout call_start again st none =
      unless_prompt timeout call_start again st (detect_prompt st.log_text)

  -- the loop of `_poll`
  unfoldable pub poll_loop : ℕ → ℕ → ℕ → SessionState → M RunResult
  poll_loop timeout call_start zero st = out_of_fuel
  poll_loop timeout call_start (suc fuel) st = do
    st' ← read_log env id log_path st
    let found = scan st'
    st'' ← store (record st' { scan_pos = length st'.log_text })
    decide timeout call_start (poll_loop timeout call_start fuel) st'' found

  start_poll : ℕ → ℕ → SessionState → M RunResult
  start_poll fuel timeout st = do call_start ← ask env.now; poll_loop timeout call_start fuel st

-- the assertions on `log_id` and `log_path`
poll_with : Env → ℕ → ℕ → ℕ → Text → SessionState → Option Text → Option Text → M RunResult
unfolding start_poll
poll_with env id fuel timeout tool st (some log_id) (some log_path) =
    start_poll env id tool log_id log_path fuel timeout st
poll_with env id fuel timeout tool st _ _ = throw other_error

-- `_poll`
unfoldable pub poll : Env → ℕ → ℕ → ℕ → Text → SessionState → M RunResult
unfolding poll_with
poll env id fuel timeout tool st = poll_with env id fuel timeout tool st st.log_id st.log_path
