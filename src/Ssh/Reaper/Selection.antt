-- ===== src/Ssh/Reaper/Selection.antt =====
-- Which sessions `select_idle_sessions` of ssh.py selects, said of the rows and not of the loop.
use tai_mcp_ssh.Prelude.{
  ℕ, ◌*◌, Bool, true, false, ◌&&◌, Option, none, some, List, [], ◌∷◌, ◌++◌, ◌≡◌, refl, ap, ◌∙◌, map,
  if◌then◌else◌, Text, text_eq, text_eq_iff, Dict, get, put, get-put, arith, append_assoc,
  Bool-cases, inl, inr,
}
use tai_mcp_ssh.Prelude.Int.{ℤ, ◌-ℤℕ◌}
use tai_mcp_ssh.Str.Chars.{int}
use tai_mcp_ssh.Str.Lines.{splitlines}
use tai_mcp_ssh.Ssh.Reaper.{
  Pane, Sessions, parse_row, is_idle, or_first, add_pane, add_rows, select_ok, select_at,
  select_lines, select_idle_sessions,
}

unfoldable pub named : Text → Option Pane → List Pane → List Pane
named name none ps = ps
named name (some p) ps = if text_eq p.name name then p ∷ ps else ps

-- the panes of a session, in the order of the listing
unfoldable pub panes_of : Text → List Text → List Pane
unfolding named
panes_of name [] = []
panes_of name (line ∷ lines) = named name (parse_row line) (panes_of name lines)

unfoldable pub all_idle : ℤ → List Pane → Bool
all_idle cutoff [] = true
all_idle cutoff (p ∷ ps) = is_idle cutoff p && all_idle cutoff ps

abbrev pub pids_of : List Pane → List ℤ
pids_of = map λ p. p.pid

-- What becomes of a session with these panes: reaped if there is one and all of them are idle.
unfoldable pub verdict : ℤ → List Pane → Option (List ℤ)
verdict cutoff [] = none
verdict cutoff (p ∷ ps) = if all_idle cutoff (p ∷ ps) then some (pids_of (p ∷ ps)) else none

combine : ℤ → Option (Bool × List ℤ) → List Pane → Option (Bool × List ℤ)
combine cutoff o [] = o
combine cutoff o (p ∷ ps) =
    some ((or_first o).0 && all_idle cutoff (p ∷ ps), (or_first o).1 ++ pids_of (p ∷ ps))

with_pane : ℤ → Option (Bool × List ℤ) → Pane → Bool × List ℤ
with_pane cutoff o p = ((or_first o).0 && is_idle cutoff p, (or_first o).1 ++ p.pid ∷ [])

combine-cons :
    (cutoff : ℤ) (o : Option (Bool × List ℤ)) (p : Pane) (ps : List Pane)
    → combine cutoff (some (with_pane cutoff o p)) ps ≡ combine cutoff o (p ∷ ps)
unfolding combine with_pane all_idle
combine-cons cutoff o p [] = ground arith
combine-cons cutoff o p (q ∷ ps) =
    ground (arith, append_assoc (or_first o).1 (p.pid ∷ []) (pids_of (q ∷ ps)))

get-add_pane :
    (cutoff : ℤ) (name : Text) (d : Sessions) (p : Pane)
    → get name (add_pane cutoff d (some p))
      ≡ (if text_eq p.name name then some (with_pane cutoff (get p.name d) p) else get name d)
unfolding add_pane with_pane
get-add_pane cutoff name d p = get-put p.name name (with_pane cutoff (get p.name d) p) d

combine-add_pane :
    (cutoff : ℤ) (name : Text) (d : Sessions) (o : Option Pane) (ps : List Pane)
    → combine cutoff (get name (add_pane cutoff d o)) ps
      ≡ combine cutoff (get name d) (named name o ps)
unfolding named
combine-add_pane cutoff name d none ps = unfold add_pane in refl
combine-add_pane cutoff name d (some p) ps = elim (Bool-cases (text_eq p.name name)) [
  | inl e ↦
      rw (get-add_pane, e)
        (combine-cons cutoff (get p.name d) p ps
          ∙ ap (λ n. combine cutoff (get n d) (p ∷ ps)) ((text_eq_iff p.name name).0 e))
  | inr e ↦ rw (get-add_pane, e)
]

get-add_rows :
    (cutoff : ℤ) (name : Text) (d : Sessions) (lines : List Text)
    → get name (add_rows cutoff d lines) ≡ combine cutoff (get name d) (panes_of name lines)
unfolding add_rows panes_of combine
get-add_rows cutoff name d [] = refl
get-add_rows cutoff name d (line ∷ lines) =
    get-add_rows cutoff name (add_pane cutoff d (parse_row line)) lines
    ∙ combine-add_pane cutoff name d (parse_row line) (panes_of name lines)

-- No key stands twice.
abbrev Unique {ℓ} : {V : Type ℓ} → Dict V → Type ℓ
Unique [] = Unit
Unique ((k, v) ∷ d) = (get k d ≡ none) × Unique d

put-Unique {ℓ} : {V : Type ℓ} (k : Text) (v : V) (d : Dict V) → Unique d → Unique (put k v d)
unfolding put get
put-Unique k v [] u = (refl, tt)
put-Unique k v ((j, w) ∷ d) u = elim (Bool-cases (text_eq j k)) [
  | inl e ↦ rw e u
  | inr e ↦ rw e (get-put k j v d ∙ rw (sym_false j k e) u.0, put-Unique k v d u.1)
]
  where
    sym_false : (a b : Text) → text_eq a b ≡ false → text_eq b a ≡ false
    sym_false a b h = ground (arith, text_eq_iff a b, text_eq_iff b a, h)

add_pane-Unique :
    (cutoff : ℤ) (d : Sessions) (o : Option Pane) → Unique d → Unique (add_pane cutoff d o)
unfolding add_pane
add_pane-Unique cutoff d none u = u
add_pane-Unique cutoff d (some p) u = put-Unique p.name _ d u

add_rows-Unique :
    (cutoff : ℤ) (d : Sessions) (lines : List Text) → Unique d → Unique (add_rows cutoff d lines)
unfolding add_rows
add_rows-Unique cutoff d [] u = u
add_rows-Unique cutoff d (line ∷ lines) u =
    add_rows-Unique cutoff (add_pane cutoff d (parse_row line)) lines
      (add_pane-Unique cutoff d (parse_row line) u)

kept : Option (Bool × List ℤ) → Option (List ℤ)
kept none = none
kept (some (ok, pids)) = if ok then some pids else none

get-select_ok : (name : Text) (d : Sessions) → Unique d → get name (select_ok d) ≡ kept (get name d)
unfolding select_ok get kept
get-select_ok name [] u = refl
get-select_ok name ((k, (true, pids)) ∷ d) u = ground (arith, get-select_ok name d u.1)
get-select_ok name ((k, (false, pids)) ∷ d) u =
    ground (arith, get-select_ok name d u.1, text_eq_iff k name, u.0, ap kept u.0)

kept-combine : (cutoff : ℤ) (ps : List Pane) → kept (combine cutoff none ps) ≡ verdict cutoff ps
unfolding kept combine verdict
kept-combine cutoff [] = refl
kept-combine cutoff (p ∷ ps) = refl

-- For every name: a session is selected exactly if the listing has a row for a pane of it and all
-- its panes are idle, and then with the process ids of its panes, in the order of the rows. The
-- time of the first line is the clock that idleness is measured against.
pub select_idle_sessions_lem :
    (listing : Text) (hours : ℕ) (first : Text) (rows : List Text) (now : ℤ) (name : Text)
    → splitlines false listing ≡ first ∷ rows
    → int first ≡ some now
    → get name (select_idle_sessions listing hours)
      ≡ verdict (now -ℤℕ (hours * 3600)) (panes_of name rows)
unfolding select_idle_sessions
select_idle_sessions_lem listing hours first rows now name lines clock =
    ap (λ ls. get name (select_lines ls hours)) lines
    ∙ ap (λ o. get name (select_at o hours rows)) clock
    ∙ get-select_ok name (add_rows cutoff [] rows) (add_rows-Unique cutoff [] rows tt)
    ∙ ap kept (get-add_rows cutoff name [] rows)
    ∙ unfold get in kept-combine cutoff (panes_of name rows)
  where
    cutoff : ℤ
    cutoff = now -ℤℕ (hours * 3600)
