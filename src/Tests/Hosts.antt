-- ===== src/Tests/Hosts.antt =====
-- The listing of a host's sessions, and the hosts in a file.
use tai_mcp_ssh.Ssh.Reaper.{select_ok, add_rows, add_pane}
use tai_mcp_ssh.Prelude.{put}
use tai_mcp_ssh.Prelude.{
  ◌*◌, none, some, [], ◌∷◌, ◌≡◌, refl, Text, codes, get, text_eq, member, strip_prefix,
}
use tai_mcp_ssh.Prelude.Int.{pos, ◌-ℤℕ◌}
use tai_mcp_ssh.Str.Chars.{split, int, lstrip}
use tai_mcp_ssh.Str.Lines.{splitlines}
use tai_mcp_ssh.Errors.{ok, raise, config_error, ◌>>=◌}
use tai_mcp_ssh.Ssh.Reaper.{select_idle_sessions, parse_row, is_idle}
use tai_mcp_ssh.Ssh.Reaper.Selection.{panes_of, verdict, all_idle, select_idle_sessions_lem}
use tai_mcp_ssh.Ssh.Reaper.Reapable.{IsReapable, select_idle_sessions-IsReapable}
use tai_mcp_ssh.Config.Node.{Node, Table, str, table, end, entry, get_key, put_key}
use tai_mcp_ssh.Config.Forbidden.{
  is_forbidden, reject_forbidden_keys, all_keys, reject_forbidden_keys_lem,
}
use tai_mcp_ssh.Config.Entry.{Host, password, entry_to_host, host_to_entry}
use tai_mcp_ssh.Config.Entry.RoundTrip.{IsValid, entry_to_host-host_to_entry, entry_to_host-IsValid}
use tai_mcp_ssh.Config.File.{Toml, saved_table, save_host, load_config}
use tai_mcp_ssh.Config.File.Saved.{save_host-forbidden}
use tai_mcp_ssh.Tests.Fixtures.{pi}

abbrev build_row : Text
build_row = codes "tai/build\t0\t100\t-bash\t42"

abbrev listing : Text
listing = codes "400000\ntai/build\t0\t100\t-bash\t42"

select_idle_sessions_lem_example :
    get (codes "tai/build") (select_idle_sessions listing 48) ≡ some (pos 42 ∷ [])
unfolding splitlines int verdict all_idle panes_of parse_row is_idle split member lstrip text_eq
    strip_prefix ◌-ℤℕ◌
select_idle_sessions_lem_example =
    select_idle_sessions_lem listing 48 (codes "400000") (build_row ∷ []) (pos 400000)
      (codes "tai/build") refl refl

select_idle_sessions-IsReapable_example :
    IsReapable
      (pos 400000 -ℤℕ (48 * 3600))
      (codes "tai/build")
      (panes_of (codes "tai/build") (build_row ∷ []))
      (pos 42 ∷ [])
unfolding splitlines int
select_idle_sessions-IsReapable_example =
    select_idle_sessions-IsReapable listing 48 (codes "400000") (build_row ∷ []) (pos 400000)
      (codes "tai/build") (pos 42 ∷ []) refl refl select_idle_sessions_lem_example

-- a host with a password
abbrev nas : Host
nas = record pi {
  alias = codes "nas";
  auth = password;
  password_ref = some (codes "keychain://tai-mcp-ssh/nas");
}

nas-IsValid : IsValid nas
unfolding strip_prefix
nas-IsValid = refl

entry_to_host-host_to_entry_example : entry_to_host (codes "nas") (host_to_entry nas) ≡ ok nas
entry_to_host-host_to_entry_example = entry_to_host-host_to_entry nas nas-IsValid

entry_to_host-IsValid_example : IsValid nas × (codes "nas" ≡ codes "nas")
entry_to_host-IsValid_example =
    entry_to_host-IsValid (codes "nas") (host_to_entry nas) {h = nas}
      entry_to_host-host_to_entry_example

abbrev leaky : Node
leaky = table (entry (codes "hosts") (table (entry (codes "token") (str []) end)) end)

reject_forbidden_keys_lem_example : reject_forbidden_keys leaky ≡ raise config_error
unfolding all_keys is_forbidden member text_eq
reject_forbidden_keys_lem_example = reject_forbidden_keys_lem leaky

-- the alias is one of the forbidden keys
abbrev token_host : Host
token_host = record pi { alias = codes "token" }

abbrev token_table : Table
token_table =
    entry (codes "hosts")
      (table (entry (codes "token") (table (entry (codes "auth") (str (codes "key")) end)) end)) end

-- a library that prints every table as nothing, and reads this one
abbrev toml : Toml
toml = record { loads = λ text. some token_table; dumps = λ t. [] }

save_host-forbidden_example :
    (save_host toml token_host none >>= λ written. load_config toml (some written))
    ≡ raise config_error
save_host-forbidden_example =
    save_host-forbidden toml token_host none token_table
      (unfold is_forbidden member text_eq in refl)
      (unfold saved_table host_to_entry put_key get_key in refl) refl

reaps_an_idle_session :
    select_idle_sessions
      (codes
        "400000\ntai/build\t0\t100\t-bash\t42\nbuild\t0\t100\tbash\t43\ntai/x\t1\t100\tbash\t44\n")
      48
    ≡ (codes "tai/build", pos 42 ∷ []) ∷ []
unfolding select_idle_sessions select_ok add_rows add_pane parse_row is_idle split int splitlines
    get put text_eq strip_prefix member lstrip ◌-ℤℕ◌
reaps_an_idle_session = refl
