-- ===== src/Audit/Files.antt =====
-- The files of the audit log: `record`, `_write_locked` and `close` of audit.py.
--
-- A file is the list of the records that its lines encode. The clock is read twice, for the time in
-- the record and for the day of the file. `close` is what it does to `_states`; that a handle is closed
-- is not modelled.
pub mod Append
pub mod History
pub mod Handles
use tai_mcp_ssh.Prelude.{
  ℕ, Bool, true, false, ◌&&◌, Option, none, some, List, [], ◌∷◌, ◌++◌, if◌then◌else◌, Text, codes,
  text_eq, map, Dict, get, put,
}
use tai_mcp_ssh.Audit.Value.{Value}
use tai_mcp_ssh.Audit.Record.{build_record}

abbrev pub AuditRecord : Type 0
AuditRecord = Dict Value

-- `states` has the day of the file that is open for a host, if one is; `files` has what is on disk,
-- by host and by day.
pub record Log : Type 0 where
  pub states : Dict (Option Text)
  pub files : Dict (Dict (List AuditRecord))

or_nothing : {A : Type 0} → Option (List A) → List A
or_nothing none = []
or_nothing (some l) = l

-- the lines of `<host>/<day>.jsonl`
unfoldable pub lines_of : Text → Text → Log → List AuditRecord
unfolding or_nothing
lines_of host day log = or_nothing (get day (or_nothing (get host log.files)))

-- whether the open file is that of the day
same_day : Text → Option (Option Text) → Bool
same_day today none = false
same_day today (some none) = false
same_day today (some (some day)) = text_eq day today

-- `open("a")` makes the file if there is none
open_file : Text → Text → Log → Log
unfolding or_nothing
open_file host day log = record {
  states = put host (some day) log.states;
  files = put host (put day (lines_of host day log) (or_nothing (get host log.files))) log.files;
}

-- a line at the end of the file that is open
write_line : Text → Text → AuditRecord → Log → Log
unfolding or_nothing
write_line host day r log = record log {
  files =
      put host (put day (lines_of host day log ++ r ∷ []) (or_nothing (get host log.files)))
        log.files;
}

-- the line goes to the file that is open after the check of the day
write_open : Text → AuditRecord → Log → Option (Option Text) → Log
unfolding write_line
write_open host r log (some (some day)) = write_line host day r log
write_open host r log _ = log

-- `_write_locked`
unfoldable pub write_locked : Text → Text → AuditRecord → Log → Log
unfolding same_day open_file write_open
write_locked today host r log =
    let log' = if same_day today (get host log.states) then log else open_file host today log in
    write_open host r log' (get host log'.states)

-- `host or SYSTEM_HOST`
unfoldable pub host_or_system : Option Text → Text
host_or_system none = codes "_system"
host_or_system (some []) = codes "_system"
host_or_system (some (c ∷ s)) = c ∷ s

-- `record`, given the time it reads and the day it reads afterwards
unfoldable pub record_entry : Text → Text → Text → Option Text → Dict Value → Log → Log
record_entry ts today tool host fields log =
    write_locked today (host_or_system host) (build_record ts tool (host_or_system host) fields) log

-- `close`
unfoldable pub close : Log → Log
close log = record log { states = map (λ e. (e.0, none)) log.states }
