-- ===== src/Ssh/Connection.antt =====
-- `Connection` of ssh.py, and `_as_str`.
pub mod Frame
use tai_mcp_ssh.Prelude.{
  ℕ, Bool, true, false, Option, none, some, List, [], ◌∷◌, ◌++◌, ◌==◌, if◌then◌else◌, Text,
}
use tai_mcp_ssh.Str.Utf8.{decode_all}
use tai_mcp_ssh.Errors.{Exc, host_unreachable, process_error, other_error, runtime_error}
use tai_mcp_ssh.Errors.{sftp_error, connection_lost}
use tai_mcp_ssh.Process.{Fault, status, lost, strange, SftpReply, fine, faulty}
use tai_mcp_ssh.Process.{
  Stream, str, bytes, missing, Completed, Reply, finished, transport_dead, process_failed,
  other_failed, Env, Connection, Process, M, pure, throw, gets, ask, modify, update_conn, ◌>>=◌,
  ◌>>◌,
}

unfoldable pub as_str : Stream → Text
as_str missing = []
as_str (bytes raw) = decode_all raw
as_str (str s) = s

-- `exit_status == 0`
unfoldable pub ok_status : Option ℕ → Bool
ok_status none = false
ok_status (some n) = n == 0

unfoldable pub mark_dead : ℕ → M (Unit {0})
mark_dead id = modify (update_conn id (λ c. record c { dead = true }))

-- the command goes out, and the answer comes in
call_ssh : Env → ℕ → Text → Bool → Bool → M Reply
call_ssh env id command check raw = do
  modify (λ s. record s { sent = s.sent ++ (id, command) ∷ [] })
  ask (λ t. env.exec t id command check raw)

reply_or_raise : ℕ → Reply → M Completed
reply_or_raise id (finished c) = pure c
reply_or_raise id transport_dead = do mark_dead id; throw host_unreachable
reply_or_raise id process_failed = throw process_error
reply_or_raise id other_failed = throw other_error

run_if : Env → ℕ → Text → Bool → Bool → Bool → M Completed
unfolding call_ssh reply_or_raise
run_if env id command check raw true = throw host_unreachable
run_if env id command check raw false = do
  r ← call_ssh env id command check raw
  reply_or_raise id r

-- `Connection.run`; `raw` is `encoding=None`
unfoldable pub run : Env → ℕ → Text → Bool → Bool → M Completed
unfolding run_if mark_dead
run env id command check raw = do
  dead ← gets (λ s. (s.conns id).dead)
  run_if env id command check raw dead

home_or_raise : Option Text → M Text
home_or_raise none = throw runtime_error
home_or_raise (some home) = pure home

-- `Connection.home_dir`
unfoldable pub home_dir : ℕ → M Text
unfolding home_or_raise
home_dir id = do home ← gets (λ s. (s.conns id).home_dir); home_or_raise home

unfoldable pub raise_fault : {A : Type 0} → Fault → M A
raise_fault (status code) = throw (sftp_error code)
raise_fault lost = throw connection_lost
raise_fault strange = throw other_error

unfoldable pub check_reply : SftpReply → M (Unit {0})
check_reply fine = pure tt
check_reply (faulty f) = raise_fault f

sftp_or_raise : ℕ → SftpReply → M (Unit {0})
sftp_or_raise id (faulty lost) = do mark_dead id; throw host_unreachable
sftp_or_raise id r = check_reply r

sftp_if : Env → ℕ → Bool → M (Unit {0})
unfolding sftp_or_raise
sftp_if env id true = throw host_unreachable
sftp_if env id false = do r ← ask (λ t. env.start_sftp t id); sftp_or_raise id r

-- `Connection.start_sftp`
unfoldable pub start_sftp : Env → ℕ → M (Unit {0})
unfolding sftp_if
start_sftp env id = do dead ← gets (λ s. (s.conns id).dead); sftp_if env id dead
