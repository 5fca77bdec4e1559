-- ===== src/Audit/Files/Handles.antt =====
-- The files that `record` of audit.py leaves open, and `close`.
use tai_mcp_ssh.Prelude.{
  Bool, true, false, Option, none, some, List, [], ◌∷◌, if◌then◌else◌, Text, text_eq, text_eq_iff,
  Dict, get, get-put, map, ◌≡◌, refl, ap, ◌∙◌, sym, Bool-cases, inl, inr,
}
use tai_mcp_ssh.Audit.Files.{
  AuditRecord, Log, same_day, open_file, write_line, write_open, write_locked, host_or_system,
  record_entry, close,
}
use tai_mcp_ssh.Audit.Files.History.{Call, recorded, shut, perform, perform_all}

no_file : Option (Option Text) → Option Text
no_file none = none
no_file (some o) = o

-- the day of the file that is open for a host
unfoldable pub open_day : Text → Log → Option Text
unfolding no_file
open_day host log = no_file (get host log.states)

-- the day of the last record for a host since the last close, or else what was open
unfoldable pub last_day : Text → List Call → Option Text → Option Text
last_day h [] before = before
last_day h (shut ∷ cs) before = last_day h cs none
last_day h (recorded ts today tool host fields ∷ cs) before =
    last_day h cs (if text_eq (host_or_system host) h then some today else before)

open_file-day :
    (host today h : Text) (log : Log)
    → open_day h (open_file host today log)
      ≡ (if text_eq host h then some today else open_day h log)
unfolding open_day open_file no_file
open_file-day host today h log =
    rw (get-put host h (some today) log.states) (by_test (text_eq host h))
  where
    by_test :
        (b : Bool)
        → no_file (if b then some (some today) else get h log.states)
          ≡ (if b then some today else no_file (get h log.states))
    by_test true = refl
    by_test false = refl

write_open-day :
    (host h : Text) (r : AuditRecord) (log : Log) (o : Option (Option Text))
    → open_day h (write_open host r log o) ≡ open_day h log
unfolding open_day write_open write_line no_file
write_open-day host h r log none = refl
write_open-day host h r log (some none) = refl
write_open-day host h r log (some (some day)) = refl

no_file-same_day :
    (today : Text) (o : Option (Option Text)) → same_day today o ≡ true → no_file o ≡ some today
unfolding same_day no_file
no_file-same_day today none e = absurd (cc)
no_file-same_day today (some none) e = absurd (cc)
no_file-same_day today (some (some day)) e = ap some ((text_eq_iff day today).0 e)

same_day-open :
    (today host : Text) (log : Log)
    → same_day today (get host log.states) ≡ true
    → open_day host log ≡ some today
unfolding open_day
same_day-open today host log e = no_file-same_day today (get host log.states) e

write_locked-day :
    (today host h : Text) (r : AuditRecord) (log : Log)
    → open_day h (write_locked today host r log)
      ≡ (if text_eq host h then some today else open_day h log)
unfolding write_locked
write_locked-day today host h r log = by_test (same_day today (get host log.states)) refl
  where
    kept :
        same_day today (get host log.states) ≡ true
        → open_day h log ≡ (if text_eq host h then some today else open_day h log)
    kept e = elim (Bool-cases (text_eq host h)) [
      | inl same ↦ rw same (
          ap (λ g. open_day g log) (sym ((text_eq_iff host h).0 same))
          ∙ same_day-open today host log e)
      | inr other ↦ rw other refl
    ]

    by_test :
        (b : Bool)
        → same_day today (get host log.states) ≡ b
        → open_day h (
            write_open host r
              (if b then log else open_file host today log)
              (get host (if b then log else open_file host today log).states))
          ≡ (if text_eq host h then some today else open_day h log)
    by_test true e = write_open-day host h r log _ ∙ kept e
    by_test false e =
        write_open-day host h r (open_file host today log) _ ∙ open_file-day host today h log

no_file-closed :
    (h : Text) (d : Dict (Option Text)) → no_file (get h (map (λ e. (e.0, none)) d)) ≡ none
unfolding no_file get
no_file-closed h [] = refl
no_file-closed h (e ∷ d) = elim (Bool-cases (text_eq e.0 h)) [
  | inl same ↦ rw same refl
  | inr other ↦ rw other (no_file-closed h d)
]

close-day : (h : Text) (log : Log) → open_day h (close log) ≡ none
unfolding open_day close
close-day h log = no_file-closed h log.states

-- After any calls of `record` and `close`, in any order, the file that is kept open for a host is the
-- one of the day of the last record for that host since the last close. If there was a close and no
-- record for the host after it, none is open, and if there was neither, what was open before.
pub perform_all-last_day :
    (calls : List Call) (log : Log) (h : Text)
    → open_day h (perform_all calls log) ≡ last_day h calls (open_day h log)
unfolding perform_all perform last_day record_entry
perform_all-last_day [] log h = refl
perform_all-last_day (shut ∷ cs) log h =
    perform_all-last_day cs (close log) h ∙ ap (last_day h cs) (close-day h log)
perform_all-last_day (recorded ts today tool host fields ∷ cs) log h =
    perform_all-last_day cs _ h
    ∙ ap (last_day h cs) (write_locked-day today (host_or_system host) h _ log)
