-- ===== src/Tests/Sweep.antt =====
-- The files of the audit log: a sweep of one host's directory, and a few calls.
use tai_mcp_ssh.Prelude.{
  IsIn, ℕ, true, none, some, List, [], ◌∷◌, ◌≡◌, refl, codes, text_eq, strip_prefix, inl, inr,
  arith, put,
}
use tai_mcp_ssh.Prelude.Int.{pos}
use tai_mcp_ssh.Str.Dates.{Date, ordinal, is_date, days_in_month, days_before_month}
use tai_mcp_ssh.Str.Dates.Order.{by_day}
use tai_mcp_ssh.Audit.Files.{Log, host_or_system}
use tai_mcp_ssh.Audit.Files.History.{
  Call, recorded, shut, perform_all, remember_all, on_disk, perform_all-remember_all,
}
use tai_mcp_ssh.Audit.Files.Handles.{open_day, last_day, perform_all-last_day}
use tai_mcp_ssh.Audit.Sweep.{
  Entry, HostDir, file_date, is_due, unlink, sweep_entries, count_host, sweep_dirs, cutoff_of,
  sweep_files, ◌>>=◌,
}
use tai_mcp_ssh.Audit.Sweep.Age.{IsOld, sweep_files-IsOld, sweep_files-oldest}

abbrev first_date : Date
first_date = record { year = 2024; month = 1; day = 1 }

abbrev fifth_date : Date
fifth_date = record { year = 2024; month = 1; day = 5 }

first_ordinal : ordinal first_date ≡ 738886
unfolding ordinal days_before_month days_in_month
first_ordinal = refl

march_ordinal : ordinal (record { year = 1900; month = 3; day = 1 }) ≡ 693655
unfolding ordinal days_before_month days_in_month
march_ordinal = refl

abbrev first_file : Entry
first_file = record { name = codes "2024-01-01.jsonl"; is_file = true; unlinks = true }

abbrev fifth_file : Entry
fifth_file = record { name = codes "2024-01-05.jsonl"; is_file = true; unlinks = true }

abbrev pi_dir : HostDir
pi_dir = record { name = codes "pi"; is_dir = true; entries = first_file ∷ fifth_file ∷ [] }

-- the last of January, with a week of retention
abbrev today : ℕ
today = 738916

first_named : file_date (codes "2024-01-01.jsonl") ≡ some first_date
unfolding file_date ◌>>=◌ strip_prefix text_eq is_date days_in_month
first_named = refl

fifth_named : file_date (codes "2024-01-05.jsonl") ≡ some fifth_date
unfolding file_date ◌>>=◌ strip_prefix text_eq is_date days_in_month
fifth_named = refl

fifth_deleted :
    IsIn (codes "pi", fifth_file) (sweep_files today (pos 7) (some (pi_dir ∷ []))).deleted
unfolding sweep_files sweep_dirs sweep_entries count_host unlink is_due cutoff_of file_date ◌>>=◌
    strip_prefix text_eq is_date days_in_month ordinal days_before_month put
fifth_deleted = inr (inl refl)

sweep_files-IsOld_example : IsOld today (pos 7) fifth_file
sweep_files-IsOld_example =
    sweep_files-IsOld today (pos 7) (some (pi_dir ∷ [])) (codes "pi") fifth_file fifth_deleted

sweep_files-oldest_example :
    IsIn (codes "pi", first_file) (sweep_files today (pos 7) (some (pi_dir ∷ []))).deleted
sweep_files-oldest_example =
    sweep_files-oldest today (pos 7) (pi_dir ∷ []) (codes "pi") fifth_file pi_dir first_file
      first_date fifth_date fifth_deleted fifth_named (inl refl) refl (inl refl) refl refl
      first_named (by_day refl refl (omega arith))

abbrev no_log : Log
no_log = record { states = []; files = [] }

abbrev three_calls : List Call
three_calls =
    recorded (codes "23:59") (codes "2024-01-01") (codes "put") (some (codes "pi")) []
    ∷ shut
    ∷ recorded (codes "00:01") (codes "2024-01-02") (codes "get") (some (codes "pi")) []
    ∷ []

perform_all-remember_all_example :
    on_disk (perform_all three_calls no_log) ≡ remember_all three_calls (on_disk no_log)
perform_all-remember_all_example = perform_all-remember_all three_calls no_log

put_shut_get : last_day (codes "pi") three_calls none ≡ some (codes "2024-01-02")
unfolding last_day host_or_system text_eq
put_shut_get = refl

perform_all-last_day_example :
    open_day (codes "pi") (perform_all three_calls no_log)
    ≡ last_day (codes "pi") three_calls (open_day (codes "pi") no_log)
perform_all-last_day_example = perform_all-last_day three_calls no_log (codes "pi")
