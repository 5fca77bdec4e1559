-- ===== src/Audit/Sweep.antt =====
-- `sweep_retention` and `_sweep_files_sync` of audit.py. A listing of the audit directory is an argument; a file that
-- cannot be deleted is one whose `unlink` raises.
pub mod Deleted
mod Names
pub mod Age
use tai_mcp_ssh.Prelude.{
  ℕ, zero, suc, ◌+◌, ◌-◌, ◌*◌, Bool, true, false, ◌&&◌, ◌||◌, put, ◌==◌, leb, if◌then◌else◌, Option,
  none, some, List, [], ◌∷◌, ◌++◌, Text, codes, text_eq, strip_prefix, Dict, not,
}
use tai_mcp_ssh.Audit.Value.{counts, texts, number}
use tai_mcp_ssh.Audit.Files.{Log, record_entry}
use tai_mcp_ssh.Prelude.Int.{ℤ, pos, neg_part, pos_part, ltz, sub_ℕ}
use tai_mcp_ssh.Str.Dates.{Date, ordinal, is_date}

-- a file of a host's directory
pub record Entry : Type 0 where
  pub name : Text
  pub is_file : Bool
  pub unlinks : Bool

-- what stands in the audit directory
pub record HostDir : Type 0 where
  pub name : Text
  pub is_dir : Bool
  pub entries : List Entry

-- an ASCII digit; another decimal digit passes the pattern, and `fromisoformat` refuses it
digit : ℕ → Option ℕ
digit c = if leb b'0' c && leb c b'9' then some (c - b'0') else none

-- as many digits as asked, and what follows them
digits : ℕ → ℕ → Text → Option (ℕ × Text)
digits zero value s = some (value, s)
digits (suc n) value [] = none
digits (suc n) value (c ∷ s) = elim (digit c) [ none ↦ none | some d ↦ digits n (value * 10 + d) s ]

-- `$` also holds before a newline at the end
at_end : Text → Bool
at_end s = text_eq s [] || text_eq s (10 ∷ [])

dated : Date → Text → Option Date
unfolding at_end
dated d s = if at_end s && is_date d then some d else none

infixl 5 ◌>>=◌
unfoldable pub ◌>>=◌ : {A B : Type 0} → Option A → (A → Option B) → Option B
none >>= f = none
some a >>= f = f a

-- `_DATE_FILE_RE`, and `date.fromisoformat` of its group
unfoldable pub file_date : Text → Option Date
unfolding digit digits dated
file_date name = do
  (year, s) ← digits 4 0 name
  s ← strip_prefix (codes "-") s
  (month, s) ← digits 2 0 s
  s ← strip_prefix (codes "-") s
  (day, s) ← digits 2 0 s
  s ← strip_prefix (codes ".jsonl") s
  dated (record { year = year; month = month; day = day }) s

is_old : ℤ → Option Date → Bool
is_old cutoff none = false
is_old cutoff (some d) = ltz (pos (ordinal d)) cutoff

-- a file of the log from before the cutoff
unfoldable pub is_due : ℤ → Entry → Bool
unfolding is_old
is_due cutoff e = e.is_file && is_old cutoff (file_date e.name)

-- The counts by host and the names of the files that could not be deleted, which are returned, and
-- the files deleted.
pub record Swept : Type 0 where
  pub deleted_by_host : Dict ℕ
  pub errors : List Text
  pub deleted : List (Text × Entry)

unfoldable pub unlink : Text → Entry → ℕ × Swept → ℕ × Swept
unlink host e (count, w) =
    if e.unlinks
    then (suc count, record w { deleted = w.deleted ++ (host, e) ∷ [] })
    else (count, record w { errors = w.errors ++ e.name ∷ [] })

-- the loop over the files of a host
unfoldable pub sweep_entries : ℤ → Text → List Entry → ℕ × Swept → ℕ × Swept
sweep_entries cutoff host [] w = w
sweep_entries cutoff host (e ∷ es) w =
    sweep_entries cutoff host es (if is_due cutoff e then unlink host e w else w)

unfoldable pub count_host : Text → ℕ × Swept → Swept
count_host host (zero, w) = w
count_host host (suc n, w) = record w { deleted_by_host = put host (suc n) w.deleted_by_host }

-- the loop over the hosts
unfoldable pub sweep_dirs : ℤ → List HostDir → Swept → Swept
sweep_dirs cutoff [] w = w
sweep_dirs cutoff (d ∷ ds) w =
    sweep_dirs cutoff ds
      (if d.is_dir then count_host d.name (sweep_entries cutoff d.name d.entries (0, w)) else w)

-- `today - retention_days`
unfoldable pub cutoff_of : ℕ → ℤ → ℤ
cutoff_of today days = sub_ℕ (today + neg_part days) (pos_part days)

abbrev pub nothing_swept : Swept
nothing_swept = record { deleted_by_host = []; errors = []; deleted = [] }

-- `_sweep_files_sync`, with the ordinal of today; there is no listing where there is no directory
unfoldable pub sweep_files : ℕ → ℤ → Option (List HostDir) → Swept
sweep_files today days none = nothing_swept
sweep_files today days (some dirs) = sweep_dirs (cutoff_of today days) dirs nothing_swept

-- `if deleted or errors`
is_worth_recording : Swept → Bool
is_worth_recording w = not (no_counts w.deleted_by_host && no_errors w.errors)
  where
    no_counts : Dict ℕ → Bool
    no_counts [] = true
    no_counts (c ∷ cs) = false

    no_errors : List Text → Bool
    no_errors [] = true
    no_errors (e ∷ es) = false

-- `sweep_retention`, given the time and the day that its record reads; what is deleted, and the log
unfoldable pub sweep_retention : Text → Text → ℕ → ℤ → Option (List HostDir) → Log → Swept × Log
unfolding is_worth_recording
sweep_retention ts day today days dirs log =
    let w = sweep_files today days dirs in
    let fields =
      (codes "deleted_by_host", counts w.deleted_by_host)
      ∷ (codes "errors", texts w.errors)
      ∷ (codes "retention_days", number days)
      ∷ [] in
    (
      w,
      if is_worth_recording w
          then record_entry ts day (codes "_sweep") (some (codes "_system")) fields log
          else log,
    )
