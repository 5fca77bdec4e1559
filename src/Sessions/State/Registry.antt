-- ===== src/Sessions/State/Registry.antt =====
-- The invariant of the session registry.
use tai_mcp_ssh.Prelude.{
  ℕ, ◌≤◌, Option, none, some, List, [], ◌≡◌, refl, Text, Dict, get, put, remove, get-put,
  get-remove, text_eq, text_eq_iff, length, arith, Bool-cases, inl, inr,
}
use mathlib.Core.Path.{subst}
use tai_mcp_ssh.Str.Utf8.{ready, decode}
use tai_mcp_ssh.Errors.{ok}
use tai_mcp_ssh.Sessions.Id.{parse_session_id}
use tai_mcp_ssh.Sessions.State.{SessionState, new_state, cleared}

-- The log as it has been read: the text is what the decoder makes of the bytes that the cursor
-- counts, and the scan position lies in it.
pub record LogRead (st : SessionState) : Type 0 where
  pub raw : List ℕ
  pub counted : length raw ≡ st.log_offset
  pub decoded : decode ready raw ≡ (st.log_decoder, st.log_text)
  pub scanned : st.scan_pos ≤ length st.log_text

-- An idle session has none of the fields of a command.
pub record IsIdle (st : SessionState) : Type 0 where
  pub no_id : st.log_id ≡ none
  pub no_path : st.log_path ≡ none
  pub no_start : st.started_at ≡ none
  pub no_command : st.command ≡ none
  pub nothing_read : st.log_offset ≡ 0

-- A session with a command in flight has all of them.
pub record IsRunning (st : SessionState) : Type 0 where
  pub log_id : Text
  pub log_path : Text
  pub started_at : ℕ
  pub command : Text
  pub has_id : st.log_id ≡ some log_id
  pub has_path : st.log_path ≡ some log_path
  pub has_start : st.started_at ≡ some started_at
  pub has_command : st.command ≡ some command

pub data Phase (st : SessionState) : Type 0 where
  idle : IsIdle st → Phase st
  running : IsRunning st → Phase st

pub record IsSane (sid : Text) (st : SessionState) : Type 0 where
  pub registered : st.session_id ≡ sid
  pub parsed : parse_session_id sid ≡ ok (st.host, st.name)
  pub phase : Phase st
  pub log : LogRead st

-- Every session is registered under its own id.
abbrev pub Registry : Dict SessionState → Type 0
Registry d = (sid : Text) (st : SessionState) → get sid d ≡ some st → IsSane sid st

-- what is known of a state that was looked up
abbrev pub Found : Text → Option SessionState → Type 0
Found sid none = Unit {0}
Found sid (some st) = IsSane sid st

pub Registry-get : (sid : Text) (d : Dict SessionState) → Registry d → Found sid (get sid d)
Registry-get sid d r = here (get sid d) refl
  where
    here : (o : Option SessionState) → get sid d ≡ o → Found sid o
    here none e = tt
    here (some st) e = r sid st e

pub Registry-put :
    (sid : Text) (st : SessionState) (d : Dict SessionState)
    → IsSane sid st
    → Registry d
    → Registry (put sid st d)
Registry-put sid st d sane r j st' h = elim (Bool-cases (text_eq sid j)) [
  | inl e ↦
      let same : st' ≡ st = ground (arith, get-put sid j st d, e) in
      rw same (subst (λ k. IsSane k st) ((text_eq_iff sid j).0 e) sane)
  | inr e ↦ r j st' (ground (arith, get-put sid j st d, e))
]

pub Registry-remove : (sid : Text) (d : Dict SessionState) → Registry d → Registry (remove sid d)
Registry-remove sid d r j st h = elim (Bool-cases (text_eq sid j)) [
  | inl e ↦ absurd (ground (arith, get-remove sid j d, e))
  | inr e ↦ r j st (ground (arith, get-remove sid j d, e))
]

pub new_state-IsSane :
    (now : ℕ) (sid host name : Text)
    → parse_session_id sid ≡ ok (host, name)
    → IsSane sid (new_state now sid host name)
unfolding new_state decode
new_state-IsSane now sid host name h = record {
  registered = refl;
  parsed = h;
  phase = idle (record {
    no_id = refl;
    no_path = refl;
    no_start = refl;
    no_command = refl;
    nothing_read = refl;
  });
  log = record { raw = []; counted = refl; decoded = refl; scanned = omega arith };
}

pub cleared-IsSane :
    (now : ℕ) (sid : Text) (st : SessionState) → IsSane sid st → IsSane sid (cleared now st)
unfolding cleared decode
cleared-IsSane now sid st h = record {
  registered = h.registered;
  parsed = h.parsed;
  phase = idle (record {
    no_id = refl;
    no_path = refl;
    no_start = refl;
    no_command = refl;
    nothing_read = refl;
  });
  log = record { raw = []; counted = refl; decoded = refl; scanned = omega arith };
}
