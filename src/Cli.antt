-- ===== src/Cli.antt =====
-- `audit_tail` of cli.py, up to the printing of its records. The number of records asked for is not
-- negative. A file is its lines, of which some may not be JSON; the time of a record is a text.
pub mod Recent
pub mod Wanted
use tai_mcp_ssh.Prelude.{
  ℕ, ◌+◌, ◌*◌, Bool, true, false, ◌&&◌, ◌==◌, ltb, leb, if◌then◌else◌, Option, none, some, List, [],
  ◌∷◌, ◌++◌, Text, codes, text_eq, Dict, get, length, take, select,
}
use tai_mcp_ssh.Audit.Value.{Value, text}
use tai_mcp_ssh.Audit.Files.{AuditRecord}

-- the lines of a file that are records, and the name of the file
pub record LogFile : Type 0 where
  pub name : Text
  pub lines : List (Option AuditRecord)

-- `s < t`
unfoldable pub text_lt : Text → Text → Bool
text_lt s [] = false
text_lt [] (d ∷ t) = true
text_lt (c ∷ s) (d ∷ t) = if c == d then text_lt s t else ltb c d

module _ {A : Type 0} (key : A → Text) where
  -- before the first that is not greater: what is equal keeps its order
  unfoldable pub insert : A → List A → List A
  insert x [] = x ∷ []
  insert x (y ∷ ys) = if text_lt (key x) (key y) then y ∷ insert x ys else x ∷ y ∷ ys

  -- `sorted(…, reverse=True)`
  unfoldable pub sort_down : List A → List A
  sort_down [] = []
  sort_down (x ∷ xs) = insert x (sort_down xs)

-- `reversed(lines)`
unfoldable pub backwards : {A : Type 0} → List A → List A
backwards [] = []
backwards (x ∷ xs) = backwards xs ++ x ∷ []

is_value : Text → Option Value → Bool
is_value s (some (text t)) = text_eq t s
is_value s _ = false

-- whether a filter is not given, or empty, or the field is as it says
unfoldable pub passes : Text → Option Text → AuditRecord → Bool
unfolding is_value
passes field none r = true
passes field (some []) r = true
passes field (some (c ∷ s)) r = is_value (c ∷ s) (get field r)

unfoldable pub is_wanted : Option Text → Option Text → AuditRecord → Bool
is_wanted session tool r = passes (codes "session") session r && passes (codes "tool") tool r

-- the loop over the lines of a file
unfoldable pub wanted_lines :
    Option Text → Option Text → List (Option AuditRecord) → List AuditRecord
wanted_lines session tool [] = []
wanted_lines session tool (none ∷ ls) = wanted_lines session tool ls
wanted_lines session tool (some r ∷ ls) =
    let rest = wanted_lines session tool ls in if is_wanted session tool r then r ∷ rest else rest

-- the loop over the files of a host, the newest first, until there are enough records
unfoldable pub read_files :
    Option Text → Option Text → ℕ → List LogFile → List AuditRecord → List AuditRecord
read_files session tool enough [] records = records
read_files session tool enough (f ∷ fs) records =
    let records' = records ++ wanted_lines session tool (backwards f.lines) in
    let rest = read_files session tool enough fs records' in
    if leb enough (length records') then records' else rest

-- the loop over the hosts
unfoldable pub read_hosts_of :
    Option Text → Option Text → ℕ → List (List LogFile) → List AuditRecord → List AuditRecord
read_hosts_of session tool enough [] records = records
read_hosts_of session tool enough (d ∷ ds) records =
    read_hosts_of session tool enough ds
      (read_files session tool enough (sort_down (λ f. f.name) d) records)

time_text : Option Value → Text
time_text (some (text t)) = t
time_text _ = []

-- `r.get("ts", "")`
unfoldable pub time_of : AuditRecord → Text
unfolding time_text
time_of r = time_text (get (codes "ts") r)

-- the records that `audit_tail` prints, from the files of the host directories that it looks at
unfoldable pub audit_tail : ℕ → Option Text → Option Text → List (List LogFile) → List AuditRecord
audit_tail n session tool dirs =
    take n (sort_down time_of (read_hosts_of session tool (n * length dirs) dirs []))
