-- ===== src/Audit/Files/History.antt =====
-- The files of the audit log under any sequence of the calls of audit.py, against the list of the
-- records made.
use tai_mcp_ssh.Prelude.{
  ◌&&◌, Option, List, [], ◌∷◌, ◌++◌, if◌then◌else◌, Text, text_eq, text_eq_iff, Dict, ◌≡◌, refl, ap,
  ◌∙◌, Bool-cases, inl, inr,
}
use mathlib.Core.Path.{fun_ext}
use tai_mcp_ssh.Audit.Value.{Value}
use tai_mcp_ssh.Audit.Record.{build_record}
use tai_mcp_ssh.Audit.Files.{AuditRecord, Log, lines_of, host_or_system, record_entry, close}
use tai_mcp_ssh.Audit.Files.Append.{record_entry-appends}

-- a call of `record`, with the time and the day that it reads, or of `close`
pub data Call : Type 0 where
  recorded : (ts today tool : Text) (host : Option Text) (fields : Dict Value) → Call
  shut : Call

unfoldable pub perform : Call → Log → Log
perform (recorded ts today tool host fields) log = record_entry ts today tool host fields log
perform shut log = close log

unfoldable pub perform_all : List Call → Log → Log
perform_all [] log = log
perform_all (c ∷ cs) log = perform_all cs (perform c log)

-- what a log promises to keep: records by host and day, and nothing of handles
abbrev pub History : Type 0
History = Text → Text → List AuditRecord

-- a call on the history
unfoldable pub remember : Call → History → History
remember shut kept h d = kept h d
remember (recorded ts today tool host fields) kept h d =
    if text_eq (host_or_system host) h && text_eq today d
    then kept h d ++ build_record ts tool (host_or_system host) fields ∷ []
    else kept h d

unfoldable pub remember_all : List Call → History → History
remember_all [] kept = kept
remember_all (c ∷ cs) kept = remember_all cs (remember c kept)

-- the history that is on disk
abbrev pub on_disk : Log → History
on_disk log h d = lines_of h d log

close-lines : (h d : Text) (log : Log) → lines_of h d (close log) ≡ lines_of h d log
unfolding lines_of close
close-lines h d log = refl

perform-remember :
    (c : Call) (log : Log) (h d : Text) → on_disk (perform c log) h d ≡ remember c (on_disk log) h d
unfolding perform remember
perform-remember shut log h d = close-lines h d log
perform-remember (recorded ts today tool host fields) log h d =
    record_entry-appends ts today tool h d host fields log
    ∙ (elim (Bool-cases (text_eq (host_or_system host) h)) [
      | inr e ↦ rw e refl
      | inl e ↦ elim (Bool-cases (text_eq today d)) [
        | inr g ↦ rw (e, g) refl
        | inl g ↦
            rw (e, g, (text_eq_iff (host_or_system host) h).0 e, (text_eq_iff today d).0 g) refl
      ]
    ])

-- Whatever the log was before, after any calls of `record`, each with any time, day, host and fields,
-- and of `close`, in any order, the file of each host and day holds what the abstract log does: what
-- it held, then the records made for that host and day in the order of the calls. The handles that
-- are kept open, the rollover at midnight and the closes are not seen.
pub perform_all-remember_all :
    (calls : List Call) (log : Log)
    → on_disk (perform_all calls log) ≡ remember_all calls (on_disk log)
unfolding perform_all remember_all
perform_all-remember_all [] log = refl
perform_all-remember_all (c ∷ cs) log =
    perform_all-remember_all cs (perform c log)
    ∙ ap (remember_all cs) (fun_ext (λ h. fun_ext (λ d. perform-remember c log h d)))
