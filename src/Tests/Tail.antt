-- ===== src/Tests/Tail.antt =====
-- Runs of `audit tail`.
use tai_mcp_ssh.Prelude.{
  length, ◌≤◌, none, some, [], ◌∷◌, map, take, All, Text, codes, text_eq, get, ◌≡◌, refl,
}
use tai_mcp_ssh.Audit.Value.{text}
use tai_mcp_ssh.Audit.Files.{AuditRecord}
use tai_mcp_ssh.Cli.{
  LogFile, text_lt, insert, sort_down, backwards, passes, is_wanted, wanted_lines, read_files,
  read_hosts_of, time_of, audit_tail,
}
use tai_mcp_ssh.Cli.Recent.{all_wanted, audit_tail-one_host}
use tai_mcp_ssh.Cli.Wanted.{IsWanted, audit_tail-IsWanted}

abbrev at_time : Text → AuditRecord
at_time t = (codes "ts", text t) ∷ (codes "tool", text (codes "put")) ∷ []

abbrev january : LogFile
january = record {
  name = codes "2024-01-01.jsonl";
  lines =
      some (at_time (codes "1"))
      ∷ none
      ∷ some (at_time (codes "2"))
      ∷ some (at_time (codes "3"))
      ∷ some (at_time (codes "4"))
      ∷ [];
}

abbrev march : LogFile
march = record { name = codes "2024-03-01.jsonl"; lines = some (at_time (codes "8")) ∷ [] }

abbrev april : LogFile
april = record { name = codes "2024-04-01.jsonl"; lines = some (at_time (codes "9")) ∷ [] }

-- the record of march is newer than the one of january that is given
one_is_missed :
    map time_of (audit_tail 2 none none ((january ∷ []) ∷ (march ∷ april ∷ []) ∷ []))
    ≡ codes "9" ∷ codes "4" ∷ []
unfolding audit_tail read_hosts_of read_files sort_down insert text_lt backwards wanted_lines
    is_wanted passes time_of get text_eq
one_is_missed = refl

audit_tail-one_host_example :
    audit_tail 1 none none ((march ∷ april ∷ []) ∷ [])
    ≡ take 1 (all_wanted none none (sort_down (λ f. f.name) (march ∷ april ∷ [])))
unfolding sort_down insert text_lt backwards wanted_lines is_wanted passes time_of get text_eq
audit_tail-one_host_example = audit_tail-one_host 1 none none (march ∷ april ∷ []) (refl, tt)

abbrev of_session : Text → Text → AuditRecord
of_session t session = (codes "session", text session) ∷ at_time t

abbrev two_sessions : LogFile
two_sessions = record {
  name = codes "2024-05-01.jsonl";
  lines =
      some (of_session (codes "1") (codes "pi/main"))
      ∷ some (of_session (codes "2") (codes "pi/other"))
      ∷ some (at_time (codes "3"))
      ∷ [];
}

session_runs :
    audit_tail 5 (some (codes "pi/main")) (some (codes "put")) ((two_sessions ∷ []) ∷ [])
    ≡ of_session (codes "1") (codes "pi/main") ∷ []
unfolding audit_tail read_hosts_of read_files sort_down insert text_lt backwards wanted_lines
    is_wanted passes time_of get text_eq
session_runs = refl

audit_tail-IsWanted_example :
    let found =
      audit_tail 5 (some (codes "pi/main")) (some (codes "put")) ((two_sessions ∷ []) ∷ []) in
    (length found ≤ 5)
    × All (IsWanted (some (codes "pi/main")) (some (codes "put")) ((two_sessions ∷ []) ∷ [])) found
audit_tail-IsWanted_example =
    audit_tail-IsWanted 5 (some (codes "pi/main")) (some (codes "put")) ((two_sessions ∷ []) ∷ [])
