-- ===== src/Sessions/State.antt =====
-- `RunResult`, `_SessionState`, `_new_state` and `_clear_state` of sessions.py.
pub mod Registry
use tai_mcp_ssh.Prelude.{ℕ, Bool, Option, none, some, [], Text}
use tai_mcp_ssh.Str.Utf8.{Decoder, ready}
use tai_mcp_ssh.Sessions.Prompt.{Status}

pub record RunResult : Type 0 where
  pub session_id : Text
  pub status : Status
  pub head : Text
  pub tail : Text
  pub bytes : ℕ
  pub truncated : Bool
  pub log_id : Text
  pub log_path : Text
  pub exit : Option ℕ
  pub attach_hint : Option Text
  pub prompt : Option Text

-- Times are microseconds since the epoch.
pub record SessionState : Type 0 where
  pub session_id : Text
  pub host : Text
  pub name : Text
  pub created_at : ℕ
  pub last_used_at : ℕ
  pub log_id : Option Text
  pub log_path : Option Text
  pub started_at : Option ℕ
  pub command : Option Text
  pub reason : Option Text
  pub log_offset : ℕ
  pub log_text : Text
  pub log_decoder : Decoder
  pub scan_pos : ℕ

unfoldable pub new_state : ℕ → Text → Text → Text → SessionState
new_state now session_id host name = record {
  session_id = session_id;
  host = host;
  name = name;
  created_at = now;
  last_used_at = now;
  log_id = none;
  log_path = none;
  started_at = none;
  command = none;
  reason = none;
  log_offset = 0;
  log_text = [];
  log_decoder = ready;
  scan_pos = 0;
}

-- `_clear_state`, given the time that it reads
unfoldable pub cleared : ℕ → SessionState → SessionState
cleared now s = record s {
  log_id = none;
  log_path = none;
  command = none;
  reason = none;
  started_at = none;
  last_used_at = now;
  log_offset = 0;
  log_text = [];
  log_decoder = ready;
  scan_pos = 0;
}
