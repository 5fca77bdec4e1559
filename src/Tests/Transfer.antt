-- ===== src/Tests/Transfer.antt =====
-- Transfers to and from one host.
use tai_mcp_ssh.Prelude.{
  ℕ, true, false, none, some, [], ◌∷◌, ◌≡◌, refl, Text, codes, get, put, text_eq, member, length,
  List,
}
use tai_mcp_ssh.Str.Path.{
  PurePath, path_of, join_path, path_text, path_name, parent, is_relative_to, starts_with,
}
use tai_mcp_ssh.Str.Chars.{split, join}
use tai_mcp_ssh.Errors.{ok, raise, transfer_denied}
use tai_mcp_ssh.Audit.Value.{text, null}
use tai_mcp_ssh.Process.{
  Env, Process, opened, pure, throw, gets, ask, modify, catch, record_event, ◌>>=◌,
}
use tai_mcp_ssh.Process.Quiet.{Writes}
use tai_mcp_ssh.Paths.{downloads_dir, state_dir}
use tai_mcp_ssh.Ssh.Connection.{start_sftp, check_reply}
use tai_mcp_ssh.Ssh.Pool.{
  get_conn, cached_or_open, make_ready, schedule_maintenance, alias_of, too_soon,
}
use tai_mcp_ssh.Transfer.{
  TransferResult, some_or_raise, true_or_raise, expanded, resolved, send_chunk, send_chunks, upload,
  put_file, downloaded, write_chunk, with_chunk, take_chunks, chunk_bytes, download, fetch,
  destination, get_file,
}
use tai_mcp_ssh.Transfer.Confined.{Inside, get_file-IsConfined, get_file-denies}
use tai_mcp_ssh.Transfer.Sent.{IsSent, put_file-IsSent}
use tai_mcp_ssh.Transfer.Received.{IsReceived}
use tai_mcp_ssh.Transfer.Reported.{get_file-IsReceived}
use tai_mcp_ssh.Tests.Fixtures.{world, process}

abbrev here : Env
here = world opened

abbrev host_pi : Text
host_pi = codes "pi"

abbrev put_process : Process
put_process = (put_file here host_pi (codes "/tmp/a") (codes "/srv/a") none (process true [])).1

abbrev put_result : TransferResult
put_result = record {
  bytes = 3;
  sha256 = 1 ∷ 2 ∷ 3 ∷ [];
  local_path = codes "/tmp/a";
  remote_path = codes "/srv/a";
}

put_returns :
    (put_file here host_pi (codes "/tmp/a") (codes "/srv/a") none (process true [])).0
    ≡ ok put_result
unfolding put_file expanded resolved some_or_raise true_or_raise upload send_chunks send_chunk
    start_sftp check_reply path_of split path_text join text_eq get_conn cached_or_open make_ready
    schedule_maintenance alias_of too_soon gets ask modify pure throw catch ◌>>=◌ get put member
    record_event
put_returns = refl

put_file-IsSent_example :
    IsSent here (codes "/srv/a") (codes "/tmp/a") (1 ∷ 2 ∷ 3 ∷ []) (process true []) put_process
put_file-IsSent_example =
    put_file-IsSent here host_pi (codes "/tmp/a") (codes "/srv/a") none (process true []) put_result
      put_returns

abbrev get_process : Process
get_process = (get_file here host_pi (codes "/srv/b") none none false (process true [])).1

abbrev get_path : Text
get_path = codes "/home/me/.local/state/tai-mcp-ssh/downloads/pi/b"

abbrev get_result : TransferResult
get_result = record {
  bytes = 3;
  sha256 = 1 ∷ 2 ∷ 3 ∷ [];
  local_path = get_path;
  remote_path = codes "/srv/b";
}

get_returns :
    (get_file here host_pi (codes "/srv/b") none none false (process true [])).0 ≡ ok get_result
unfolding get_file destination downloads_dir state_dir fetch resolved some_or_raise true_or_raise
    download take_chunks with_chunk write_chunk downloaded chunk_bytes start_sftp check_reply
    path_of join_path path_name parent is_relative_to starts_with split path_text join text_eq
    get_conn cached_or_open make_ready schedule_maintenance alias_of too_soon gets ask modify pure
    throw catch ◌>>=◌ get put member record_event
get_returns = refl

get_file-IsReceived_example :
    (content : List ℕ) × (3 ≡ length content)
    × ((1 ∷ 2 ∷ 3 ∷ []) ≡ content)
    × IsReceived here (codes "/srv/b") get_path content get_process
get_file-IsReceived_example =
    get_file-IsReceived here host_pi (codes "/srv/b") none none false (process true []) get_result
      get_returns

get_file-IsConfined_example :
    Writes
      (Inside here (destination here host_pi (codes "/srv/b") none))
      (process true [])
      get_process
get_file-IsConfined_example =
    get_file-IsConfined here host_pi (codes "/srv/b") none none (process true [])

abbrev root_path : PurePath
root_path = record {
  rooted = true;
  parts =
      codes "home"
      ∷ codes "me"
      ∷ codes ".local"
      ∷ codes "state"
      ∷ codes "tai-mcp-ssh"
      ∷ codes "downloads"
      ∷ [];
}

abbrev passwd_path : PurePath
passwd_path = record { rooted = true; parts = codes "etc" ∷ codes "passwd" ∷ [] }

abbrev asked_calls : ℕ → Process
asked_calls n = record (process true []) { tick = n }

to_passwd :
    destination here host_pi (codes "/b") (some (codes "/etc/passwd")) (process true [])
    ≡ (ok passwd_path, asked_calls 1)
unfolding destination expanded some_or_raise ask pure ◌>>=◌ path_of split text_eq
to_passwd = refl

passwd_resolves : resolved here passwd_path (asked_calls 1) ≡ (ok passwd_path, asked_calls 2)
unfolding resolved some_or_raise ask pure ◌>>=◌
passwd_resolves = refl

root_resolves :
    resolved here (downloads_dir here none) (asked_calls 2) ≡ (ok root_path, asked_calls 3)
unfolding resolved some_or_raise ask pure ◌>>=◌ downloads_dir state_dir join_path path_of split
    text_eq
root_resolves = refl

outside_root : is_relative_to passwd_path root_path ≡ false
unfolding is_relative_to starts_with text_eq
outside_root = refl

get_file-denies_example :
    get_file here host_pi (codes "/b") (some (codes "/etc/passwd")) none false (process true []) ≡ (
      raise (transfer_denied true),
      record (asked_calls 3) {
        audit =
            record {
              tool = codes "get";
              host = some host_pi;
              fields =
                  (codes "remote_path", text (codes "/b"))
                  ∷ (codes "local_path", text (path_text passwd_path))
                  ∷ (codes "reason", null)
                  ∷ (codes "status", text (codes "rejected"))
                  ∷ (codes "error", text (codes "destination outside downloads dir"))
                  ∷ [];
            }
            ∷ [];
      },
    )
get_file-denies_example =
    get_file-denies here host_pi (codes "/b") (some (codes "/etc/passwd")) none (process true [])
      (asked_calls 1) (asked_calls 2) (asked_calls 3) passwd_path passwd_path root_path to_passwd
      passwd_resolves root_resolves outside_root
