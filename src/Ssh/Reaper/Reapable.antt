-- ===== src/Ssh/Reaper/Reapable.antt =====
-- Which sessions `select_idle_sessions` of ssh.py may select.
use tai_mcp_ssh.Prelude.{
  ℕ, ◌*◌, true, false, Option, none, some, List, [], ◌∷◌, ◌≡◌, refl, sym, ap, ◌∙◌, Text, text_eq,
  text_eq_iff, get, arith, Bool-cases, inl, inr, All, ◌≢◌, member, ◌==◌,
}
use mathlib.Core.Path.{subst}
use tai_mcp_ssh.Prelude.Int.{ℤ, pos, negsuc, ltz, ◌-ℤℕ◌}
use tai_mcp_ssh.Str.Chars.{split, int, lstrip}
use tai_mcp_ssh.Str.Lines.{splitlines}
use tai_mcp_ssh.Ssh.Reaper.{
  Pane, is_zero, at_prompt, idle_shells, is_reap_name, parse_row, row_fields, int_fields, is_idle,
  select_idle_sessions,
}
use tai_mcp_ssh.Ssh.Reaper.Selection.{
  named, panes_of, all_idle, pids_of, verdict, select_idle_sessions_lem,
}

-- No client is attached to the pane, its last activity is before the cutoff, and a shell is what
-- runs in it, a login shell with its dash included.
pub record IsUnused (cutoff : ℤ) (p : Pane) : Type 0 where
  pub unattached : p.attached ≡ pos 0
  pub quiet : ltz p.activity cutoff ≡ true
  pub shell : member (lstrip (λ c. c == b'-') p.command) idle_shells ≡ true

is_zero_sound : (n : ℤ) → is_zero n ≡ true → n ≡ pos 0
unfolding is_zero
is_zero_sound (pos n) h = ap pos (ground arith)
is_zero_sound (negsuc n) h = absurd (ground (arith, h))

is_idle-IsUnused : (cutoff : ℤ) (p : Pane) → is_idle cutoff p ≡ true → IsUnused cutoff p
unfolding is_idle at_prompt
is_idle-IsUnused cutoff p h = record {
  unattached = is_zero_sound p.attached (ground arith);
  quiet = ground arith;
  shell = ground arith;
}

-- Why a session may be killed.
pub record IsReapable (cutoff : ℤ) (name : Text) (panes : List Pane) (pids : List ℤ) : Type 0 where
  pub ours : is_reap_name name ≡ true
  pub idle : All (IsUnused cutoff) panes
  pub pids_listed : pids ≡ pids_of panes
  pub pids_found : pids ≢ []

int_fields-name :
    (name : Text) (a b : Option ℤ) (command : Text) (c : Option ℤ) {p : Pane}
    → int_fields name a b command c ≡ some p
    → p.name ≡ name
unfolding int_fields
int_fields-name name (some a) (some b) command (some c) h = ground arith
int_fields-name name a b command c h = cc

row_fields-name :
    (parts : List Text) {p : Pane} → row_fields parts ≡ some p → is_reap_name p.name ≡ true
unfolding row_fields
row_fields-name (name ∷ a ∷ b ∷ command ∷ c ∷ []) {p} h = elim (Bool-cases (is_reap_name name)) [
  | inl e ↦ rw (int_fields-name name (int a) (int b) command (int c) {p = p} (ground (arith, e))) e
  | inr e ↦ absurd (ground (arith, e))
]
row_fields-name parts h = cc

all_idle_sound :
    (cutoff : ℤ) (ps : List Pane) → all_idle cutoff ps ≡ true → All (IsUnused cutoff) ps
unfolding all_idle
all_idle_sound cutoff [] h = tt
all_idle_sound cutoff (p ∷ ps) h =
    (is_idle-IsUnused cutoff p (ground arith), all_idle_sound cutoff ps (ground arith))

verdict_sound :
    (cutoff : ℤ) (ps : List Pane) (pids : List ℤ)
    → verdict cutoff ps ≡ some pids
    → All (IsUnused cutoff) ps × (pids ≡ pids_of ps) × (pids ≢ [])
unfolding verdict
verdict_sound cutoff [] pids h = cc
verdict_sound cutoff (p ∷ ps) pids h = elim (Bool-cases (all_idle cutoff (p ∷ ps))) [
  | inl e ↦
      let same : pids ≡ pids_of (p ∷ ps) = ground (arith, e) in
      (all_idle_sound cutoff (p ∷ ps) e, same, λ none_left. cc)
  | inr e ↦ absurd (ground (arith, e))
]

named-ours :
    (name line : Text) (o : Option Pane) (ps : List Pane)
    → parse_row line ≡ o
    → named name o ps ≢ []
    → (ps ≢ [] → is_reap_name name ≡ true)
    → is_reap_name name ≡ true
unfolding named parse_row
named-ours name line none ps e h later = later h
named-ours name line (some p) ps e h later = elim (Bool-cases (text_eq p.name name)) [
  | inl same ↦
      subst (λ n. is_reap_name n ≡ true) ((text_eq_iff p.name name).0 same)
        (row_fields-name (split 9 line) {p = p} e)
  | inr other ↦ later (λ none_left. h (rw (other, none_left)))
]

panes_of-ours :
    (name : Text) (lines : List Text) → panes_of name lines ≢ [] → is_reap_name name ≡ true
unfolding panes_of
panes_of-ours name [] h = absurd (h refl)
panes_of-ours name (line ∷ lines) h =
    named-ours name line (parse_row line) (panes_of name lines) refl h (panes_of-ours name lines)

-- A selected session has one of our two prefixes, every pane of it is unattached, at a shell prompt
-- and idle since before the cutoff, and its process ids are those of all its panes.
pub select_idle_sessions-IsReapable :
    (listing : Text) (hours : ℕ) (first : Text) (rows : List Text) (now : ℤ) (name : Text)
    (pids : List ℤ)
    → splitlines false listing ≡ first ∷ rows
    → int first ≡ some now
    → get name (select_idle_sessions listing hours) ≡ some pids
    → IsReapable (now -ℤℕ (hours * 3600)) name (panes_of name rows) pids
select_idle_sessions-IsReapable listing hours first rows now name pids lines clock h =
    let (idle, listed, found) =
      verdict_sound (now -ℤℕ (hours * 3600)) (panes_of name rows) pids
        (sym (select_idle_sessions_lem listing hours first rows now name lines clock) ∙ h) in
    record {
      ours = panes_of-ours name rows (λ e. found (listed ∙ ap pids_of e));
      idle = idle;
      pids_listed = listed;
      pids_found = found;
    }
