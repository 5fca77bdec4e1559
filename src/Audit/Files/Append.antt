-- ===== src/Audit/Files/Append.antt =====
-- The files of the audit log before and after `record`.
use tai_mcp_ssh.Prelude.{
  Bool, true, false, ◌&&◌, Option, none, some, List, [], ◌∷◌, ◌++◌, if◌then◌else◌, Text, text_eq,
  text_eq_iff, Dict, get, put, get-put, ◌≡◌, refl, ◌∙◌, sym, arith, Bool-cases, inl, inr,
}
use tai_mcp_ssh.Audit.Value.{Value}
use tai_mcp_ssh.Audit.Record.{build_record}
use tai_mcp_ssh.Audit.Files.{
  AuditRecord, Log, or_nothing, lines_of, same_day, open_file, write_line, write_open, write_locked,
  host_or_system, record_entry,
}

-- the days of one host
days_of : Text → Log → Dict (List AuditRecord)
unfolding or_nothing
days_of host log = or_nothing (get host log.files)

get-put-lines :
    (day d : Text) (v : List AuditRecord) (days : Dict (List AuditRecord))
    → or_nothing (get d (put day v days)) ≡ (if text_eq day d then v else or_nothing (get d days))
unfolding or_nothing
get-put-lines day d v days = rw (get-put day d v days) (by_test (text_eq day d))
  where
    by_test :
        (b : Bool)
        → or_nothing (if b then some v else get d days) ≡ (if b then v else or_nothing (get d days))
    by_test true = refl
    by_test false = refl

put-lines :
    (host day h d : Text) (v : List AuditRecord) (files : Dict (Dict (List AuditRecord)))
    → or_nothing
        (get d (or_nothing (get h (put host (put day v (or_nothing (get host files))) files))))
      ≡ (if text_eq host h && text_eq day d
          then v
          else or_nothing (get d (or_nothing (get h files))))
unfolding or_nothing
put-lines host day h d v files = elim (Bool-cases (text_eq host h)) [
  | inl e ↦
      rw
        (
          sym ((text_eq_iff host h).0 e),
          get-put host host (put day v (or_nothing (get host files))) files,
          (text_eq_iff host host).1 refl,
        )
        (get-put-lines day d v (or_nothing (get host files)))
  | inr e ↦ rw (get-put host h (put day v (or_nothing (get host files))) files, e) refl
]

write_line-lines :
    (host day h d : Text) (r : AuditRecord) (log : Log)
    → lines_of h d (write_line host day r log) ≡ (
        if text_eq host h && text_eq day d
        then lines_of host day log ++ r ∷ []
        else lines_of h d log)
unfolding lines_of write_line
write_line-lines host day h d r log = put-lines host day h d _ log.files

open_file-lines :
    (host day h d : Text) (log : Log) → lines_of h d (open_file host day log) ≡ lines_of h d log
unfolding lines_of open_file
open_file-lines host day h d log =
    put-lines host day h d _ log.files ∙ ground (arith, text_eq_iff host h, text_eq_iff day d)

-- what is on disk after one line for `host` on the day `today`
abbrev Added : Text → Text → AuditRecord → Log → Log → Text → Text → Type 0
Added today host r log log' h d = lines_of h d log' ≡ (
    if text_eq host h && text_eq today d
    then lines_of host today log ++ r ∷ []
    else lines_of h d log)

write_same_day :
    (today host h d : Text) (r : AuditRecord) (log : Log) (o : Option (Option Text))
    → same_day today o ≡ true
    → Added today host r log (write_open host r log o) h d
unfolding same_day write_open
write_same_day today host h d r log none e = absurd (ground (arith, e))
write_same_day today host h d r log (some none) e = absurd (ground (arith, e))
write_same_day today host h d r log (some (some day)) e =
    rw (sym ((text_eq_iff day today).0 e)) (write_line-lines host day h d r log)

write_new_day :
    (today host h d : Text) (r : AuditRecord) (log : Log)
    → Added today host r log
        (write_open host r (open_file host today log) (get host (open_file host today log).states))
        h
        d
unfolding write_open open_file
write_new_day today host h d r log =
    rw (get-put host host (some today) log.states, (text_eq_iff host host).1 refl)
      (write_line-lines host today h d r (open_file host today log)
        ∙ rw (open_file-lines host today host today log, open_file-lines host today h d log) refl)

write_locked-Added :
    (today host h d : Text) (r : AuditRecord) (log : Log)
    → Added today host r log (write_locked today host r log) h d
unfolding write_locked
write_locked-Added today host h d r log = by_test (same_day today (get host log.states)) refl
  where
    by_test :
        (b : Bool)
        → same_day today (get host log.states) ≡ b
        → Added today host r log
            (write_open host r
              (if b then log else open_file host today log)
              (get host (if b then log else open_file host today log).states))
            h
            d
    by_test true e = write_same_day today host h d r log (get host log.states) e
    by_test false e = write_new_day today host h d r log

-- A call of `record`, on any state of the log, puts the record that `_build_record` makes at the end
-- of the file of its host (`_system` if there is none) for the day read at the write, whichever day's
-- file was open before; every other file, of any host and day, stays as it is.
pub record_entry-appends :
    (ts today tool h d : Text) (host : Option Text) (fields : Dict Value) (log : Log)
    → lines_of h d (record_entry ts today tool host fields log) ≡ (
        if text_eq (host_or_system host) h && text_eq today d
        then lines_of (host_or_system host) today log
          ++ build_record ts tool (host_or_system host) fields ∷ []
        else lines_of h d log)
unfolding record_entry
record_entry-appends ts today tool h d host fields log =
    write_locked-Added today (host_or_system host) h d _ log
