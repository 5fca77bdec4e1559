-- ===== src/Ssh/Reaper.antt =====
-- `select_idle_sessions` of ssh.py, with `_REAP_NAME_RE` and `_IDLE_SHELLS`.
pub mod Selection
pub mod Reapable
use tai_mcp_ssh.Prelude.{
  ℕ, ◌*◌, Bool, true, false, ◌&&◌, ◌||◌, Option, none, some, List, [], ◌∷◌, ◌++◌, ◌≡◌, refl, ◌==◌,
  if◌then◌else◌, Text, codes, member, strip_prefix, is_some, Dict, get, put, text_eq,
}
use tai_mcp_ssh.Prelude.Int.{ℤ, pos, negsuc, ltz, ◌-ℤℕ◌}
use tai_mcp_ssh.Str.Chars.{split, int, lstrip}
use tai_mcp_ssh.Str.Lines.{splitlines}

-- `_REAP_NAME_RE.match(name)`
unfoldable pub is_reap_name : Text → Bool
is_reap_name name =
    is_some (strip_prefix (codes "tai/") name) || is_some (strip_prefix (codes "tai-mcp/") name)

unfoldable pub idle_shells : List Text
idle_shells = codes "bash" ∷ codes "zsh" ∷ codes "sh" ∷ codes "dash" ∷ codes "fish" ∷ []

-- One pane, as a well-formed row of the listing reports it.
pub record Pane : Type 0 where
  pub name : Text
  pub attached : ℤ
  pub activity : ℤ
  pub command : Text
  pub pid : ℤ

int_fields : Text → Option ℤ → Option ℤ → Text → Option ℤ → Option Pane
int_fields name (some attached) (some activity) command (some pid) =
    some (record {
      name = name;
      attached = attached;
      activity = activity;
      command = command;
      pid = pid;
    })
int_fields name _ _ command _ = none

row_fields : List Text → Option Pane
unfolding int_fields
row_fields (name ∷ attached ∷ activity ∷ command ∷ pid ∷ []) =
    if is_reap_name name
    then int_fields name (int attached) (int activity) command (int pid)
    else none
row_fields _ = none

-- The pane of a row; `none` where the loop goes on with `continue`.
unfoldable pub parse_row : Text → Option Pane
unfolding row_fields is_reap_name
parse_row line = row_fields (split 9 line)

unfoldable pub at_prompt : Text → Bool
unfolding idle_shells
at_prompt command = member (lstrip (λ c. c == b'-') command) idle_shells

is_zero : ℤ → Bool
is_zero (pos n) = n == 0
is_zero (negsuc n) = false

unfoldable pub is_idle : ℤ → Pane → Bool
unfolding at_prompt is_zero
is_idle cutoff p = is_zero p.attached && ltz p.activity cutoff && at_prompt p.command

abbrev pub Sessions : Type 0
Sessions = Dict (Bool × List ℤ)

abbrev or_first : Option (Bool × List ℤ) → Bool × List ℤ
or_first none = (true, [])
or_first (some e) = e

-- one round of the loop over the rows
unfoldable pub add_pane : ℤ → Sessions → Option Pane → Sessions
add_pane cutoff sessions none = sessions
add_pane cutoff sessions (some p) =
    let (ok, pids) = or_first (get p.name sessions) in
    put p.name (ok && is_idle cutoff p, pids ++ p.pid ∷ []) sessions

unfoldable pub add_rows : ℤ → Sessions → List Text → Sessions
add_rows cutoff sessions [] = sessions
add_rows cutoff sessions (line ∷ lines) =
    add_rows cutoff (add_pane cutoff sessions (parse_row line)) lines

-- `[(name, pids) for name, (ok, pids) in sessions.items() if ok]`
unfoldable pub select_ok : Sessions → Dict (List ℤ)
select_ok [] = []
select_ok ((name, (ok, pids)) ∷ sessions) =
    let rest = select_ok sessions in if ok then (name, pids) ∷ rest else rest

select_at : Option ℤ → ℕ → List Text → Dict (List ℤ)
select_at none hours rows = []
select_at (some now) hours rows = select_ok (add_rows (now -ℤℕ (hours * 3600)) [] rows)

select_lines : List Text → ℕ → Dict (List ℤ)
unfolding select_at
select_lines [] hours = []
select_lines (first ∷ rows) hours = select_at (int first) hours rows

unfoldable pub select_idle_sessions : Text → ℕ → Dict (List ℤ)
unfolding select_lines
select_idle_sessions listing idle_timeout_hours =
    select_lines (splitlines false listing) idle_timeout_hours
