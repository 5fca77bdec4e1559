-- ===== src/Audit/Failures.antt =====
-- The records of tool calls that were rejected or failed. What the server does on its own account
-- is recorded under names that begin with an underscore.
use tai_mcp_ssh.Prelude.{
  ℕ, suc, Bool, true, false, not, ◌&&◌, ◌||◌, Option, some, List, [], ◌∷◌, ◌++◌, ◌==◌,
  if◌then◌else◌, Text, codes, text_eq, get, ◌≡◌, refl, Bool-cases, inl, inr,
}
use tai_mcp_ssh.Audit.Value.{Value, text, Event}

abbrev pub is_internal : Text → Bool
is_internal [] = false
is_internal (c ∷ tool) = c == b'_'

abbrev pub is_failed : Option Value → Bool
is_failed (some (text s)) = text_eq s (codes "rejected") || text_eq s (codes "error")
is_failed _ = false

abbrev pub is_failure : Event → Bool
is_failure e = not (is_internal e.tool) && is_failed (get (codes "status") e.fields)

unfoldable pub failures : List Event → ℕ
failures [] = 0
failures (e ∷ es) = if is_failure e then suc (failures es) else failures es

pub failures-succeeds :
    (es : List Event) (e : Event) → is_failure e ≡ false → failures (es ++ e ∷ []) ≡ failures es
unfolding failures
failures-succeeds [] e h = rw h refl
failures-succeeds (d ∷ es) e h = rw (failures-succeeds es e h) refl

pub failures-fails :
    (es : List Event) (e : Event)
    → is_failure e ≡ true
    → failures (es ++ e ∷ []) ≡ suc (failures es)
unfolding failures
failures-fails [] e h = rw h refl
failures-fails (d ∷ es) e h = elim (Bool-cases (is_failure d)) [
  | inl x ↦ rw (x, failures-fails es e h) refl
  | inr x ↦ rw (x, failures-fails es e h) refl
]
