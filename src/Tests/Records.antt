-- ===== src/Tests/Records.antt =====
-- Records of the audit log, and its files.
use tai_mcp_ssh.Prelude.{strip_prefix}
use tai_mcp_ssh.Audit.Redact.{
  sub, sub_from, replace, match_password, match_reference, word_end, after_word,
}
use tai_mcp_ssh.Prelude.{some, List, [], ◌∷◌, ◌++◌, ◌≡◌, refl, Text, codes, get, text_eq, member}
use tai_mcp_ssh.Str.Chars.{is_space}
use tai_mcp_ssh.Audit.Value.{Value, text}
use tai_mcp_ssh.Audit.Redact.{redacted, redact_command}
use tai_mcp_ssh.Audit.Redact.Hides.{redact_command-hides}
use tai_mcp_ssh.Audit.Record.{build_record, scrub}
use tai_mcp_ssh.Audit.Record.Fields.{build_record_lem, build_record-redacts}
use tai_mcp_ssh.Audit.Files.{Log, lines_of, host_or_system, record_entry}
use tai_mcp_ssh.Audit.Files.Append.{record_entry-appends}

abbrev mysql : Text
mysql = codes "mysql -u x "

-- the flag is taken for the password, up to the next space
flag_runs :
    redact_command (codes "--password --password=hunter2 -u x") ≡ codes "--password <redacted> -u x"
unfolding redact_command sub sub_from replace match_password match_reference word_end after_word
    is_space strip_prefix
flag_runs = refl

redact_command-hides_example :
    redact_command (mysql ++ (codes "--password=" ++ (codes "hunter2" ++ codes " -h db")))
    ≡ redact_command (mysql ++ (codes "--password=" ++ (codes "other" ++ codes " -h db")))
unfolding is_space
redact_command-hides_example =
    redact_command-hides mysql (codes "hunter2") (codes "other") (codes " -h db") refl refl refl

abbrev fields : List (Text × Value)
fields = (codes "tool", text (codes "forged")) ∷ (codes "token", text (codes "hunter2")) ∷ []

build_record_lem_example :
    get (codes "token") (build_record (codes "now") (codes "transfer_put") (codes "pi") fields)
    ≡ some (text redacted)
unfolding get member text_eq scrub
build_record_lem_example =
    build_record_lem (codes "now") (codes "transfer_put") (codes "pi") (codes "token") fields
      (refl, (refl, tt))

-- the file of the day before is open
abbrev yesterday : Log
yesterday = record {
  states = (codes "pi", some (codes "2024-01-01")) ∷ [];
  files = (codes "pi", (codes "2024-01-01", [] ∷ []) ∷ []) ∷ [];
}

record_entry-appends_example :
    lines_of (codes "pi") (codes "2024-01-02") (
      record_entry
        (codes "now")
        (codes "2024-01-02")
        (codes "host_info")
        (some (codes "pi"))
        []
        yesterday)
    ≡ build_record (codes "now") (codes "host_info") (codes "pi") [] ∷ []
unfolding host_or_system lines_of get text_eq
record_entry-appends_example =
    record_entry-appends (codes "now") (codes "2024-01-02") (codes "host_info") (codes "pi")
      (codes "2024-01-02") (some (codes "pi")) [] yesterday

build_record-redacts_example : text redacted ≡ text redacted
unfolding get text_eq
build_record-redacts_example =
    build_record-redacts (codes "now") (codes "transfer_put") (codes "pi") (codes "token") fields
      (text redacted) (unfold member text_eq in refl) (refl, (refl, tt)) build_record_lem_example

masks_a_password :
    redact_command (codes "mysql --password=hunter2 -u x")
    ≡ codes "mysql --password=<redacted> -u x"
unfolding redact_command sub sub_from replace match_password match_reference word_end after_word
    strip_prefix is_space
masks_a_password = refl
