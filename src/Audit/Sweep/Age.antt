-- ===== src/Audit/Sweep/Age.antt =====
-- The age of the files that `_sweep_files_sync` of audit.py deletes.
use tai_mcp_ssh.Prelude.{
  IsIn, ℕ, ◌+◌, ◌<◌, true, ◌&&◌, Option, none, some, List, Text, ◌≡◌, refl, sym, ◌∙◌, arith, inl,
  inr,
}
use mathlib.Core.Path.{subst}
use mathlib.Core.Option.{some-injective}
use tai_mcp_ssh.Prelude.Int.{ℤ, pos, negsuc, ltz, pos_part, neg_part}
use tai_mcp_ssh.Str.Dates.{Date, ordinal}
use tai_mcp_ssh.Str.Dates.Order.{IsBefore, ordinal_lt}
use tai_mcp_ssh.Audit.Sweep.{
  Entry, HostDir, file_date, is_old, is_due, sweep_dirs, cutoff_of, nothing_swept, sweep_files,
}
use tai_mcp_ssh.Audit.Sweep.Names.{NamesDay, file_date_sound}
use tai_mcp_ssh.Audit.Sweep.Deleted.{dirs_sound, dirs-deletes}

-- a regular file of the log, dated before the cutoff
record IsDue (cutoff : ℤ) (e : Entry) : Type 0 where
  pub regular : e.is_file ≡ true
  pub date : Date
  pub named : file_date e.name ≡ some date
  pub before : ltz (pos (ordinal date)) cutoff ≡ true

is_due-IsDue : (cutoff : ℤ) (e : Entry) → is_due cutoff e ≡ true → IsDue cutoff e
unfolding is_due is_old
is_due-IsDue cutoff e h = by_date (file_date e.name) refl h
  where
    by_date :
        (o : Option Date)
        → file_date e.name ≡ o
        → (e.is_file && is_old cutoff o) ≡ true
        → IsDue cutoff e
    by_date none named g = absurd (ground (arith, g))
    by_date (some d) named g = record {
      regular = ground (arith, g);
      date = d;
      named = named;
      before = ground (arith, g);
    }

-- a regular file that is named for a day more than so many days before today
pub record IsOld (today : ℕ) (days : ℤ) (e : Entry) : Type 0 where
  pub regular : e.is_file ≡ true
  pub date : Date
  pub named : NamesDay e.name date
  pub before : ordinal date + pos_part days < today + neg_part days

-- before `today - days`
before-cutoff :
    (today o : ℕ) (days : ℤ)
    → ltz (pos o) (cutoff_of today days) ≡ true
    → o + pos_part days < today + neg_part days
unfolding cutoff_of
before-cutoff today o (pos n) h = ground (arith, h)
before-cutoff today o (negsuc n) h = ground (arith, h)

is_due-IsOld :
    (today : ℕ) (days : ℤ) (e : Entry) → is_due (cutoff_of today days) e ≡ true → IsOld today days e
is_due-IsOld today days e h =
    let due = is_due-IsDue (cutoff_of today days) e h in
    record {
      regular = due.regular;
      date = due.date;
      named = file_date_sound e.name due.date due.named;
      before = before-cutoff today (ordinal due.date) days due.before;
    }

-- Whatever stands in the audit directory, the sweep deletes a file only if it is a regular file, its
-- name is `YYYY-MM-DD.jsonl` as printed for a day that exists, alone or with one newline after it, and
-- the ordinal of that day is more than `retention_days` (which may be negative) below that of today.
pub sweep_files-IsOld :
    (today : ℕ) (days : ℤ) (dirs : Option (List HostDir)) (host : Text) (e : Entry)
    → IsIn (host, e) (sweep_files today days dirs).deleted
    → IsOld today days e
unfolding sweep_files
sweep_files-IsOld today days none host e h = absurd h
sweep_files-IsOld today days (some dirs) host e h =
    elim (dirs_sound (cutoff_of today days) dirs nothing_swept (host, e) h) [
      | inl before ↦ absurd before
      | inr due ↦ is_due-IsOld today days e due
    ]

-- what is before an earlier number than one before the cutoff is before it too
lower-before :
    (m n : ℕ) (cutoff : ℤ) → m < n → ltz (pos n) cutoff ≡ true → ltz (pos m) cutoff ≡ true
lower-before m n (pos k) l h = ground (arith, l, h)
lower-before m n (negsuc k) l h = ground (arith, l, h)

earlier-due :
    (cutoff : ℤ) (e f : Entry) (d c : Date)
    → e.is_file ≡ true
    → file_date e.name ≡ some d
    → file_date f.name ≡ some c
    → IsBefore d c
    → is_due cutoff f ≡ true
    → is_due cutoff e ≡ true
unfolding is_due is_old
earlier-due cutoff e f d c regular named other before due =
    let less : ordinal d < ordinal c =
      ordinal_lt d c ((file_date_sound e.name d named).exists)
        ((file_date_sound f.name c other).exists) before in
    let old = is_due-IsDue cutoff f due in
    let same : old.date ≡ c = some-injective old.date c (sym old.named ∙ other) in
    rw (regular, named)
      (lower-before (ordinal d) (ordinal c) cutoff less
        (subst (λ z. ltz (pos (ordinal z)) cutoff ≡ true) same old.before))

-- The sweep goes by age: where it deletes a file of one day, of any host, it also deletes every
-- regular file of a day before, of every host directory, if the system lets it.
pub sweep_files-oldest :
    (today : ℕ) (days : ℤ) (dirs : List HostDir) (host : Text) (f : Entry) (dir : HostDir)
    (e : Entry) (d c : Date)
    → IsIn (host, f) (sweep_files today days (some dirs)).deleted
    → file_date f.name ≡ some c
    → IsIn dir dirs
    → dir.is_dir ≡ true
    → IsIn e dir.entries
    → e.is_file ≡ true
    → e.unlinks ≡ true
    → file_date e.name ≡ some d
    → IsBefore d c
    → IsIn (dir.name, e) (sweep_files today days (some dirs)).deleted
unfolding sweep_files
sweep_files-oldest today days dirs host f dir e d c gone other i is_dir j regular unlinks named
      before =
    dirs-deletes (cutoff_of today days) dirs nothing_swept dir e i is_dir j
      (earlier-due (cutoff_of today days) e f d c regular named other before (due_of gone)) unlinks
  where
    due_of :
        IsIn (host, f) (sweep_dirs (cutoff_of today days) dirs nothing_swept).deleted
        → is_due (cutoff_of today days) f ≡ true
    due_of i = elim (dirs_sound (cutoff_of today days) dirs nothing_swept (host, f) i) [
      | inl nothing ↦ absurd nothing
      | inr due ↦ due
    ]
