-- ===== src/Transfer.antt =====
-- `TransferManager` of transfer.py: `put` and `get`. The texts of the hints are not modelled, as
-- those of all exceptions; a file that fails to close while an exception passes is not either.
pub mod Frame
pub mod Confined
mod Returns
pub mod Sent
pub mod Received
pub mod Reported
use tai_mcp_ssh.Prelude.{
  ℕ, ◌+◌, Bool, true, false, not, ◌&&◌, Option, none, some, List, [], ◌∷◌, ◌++◌, ◌==◌,
  if◌then◌else◌, Text, codes, length, Dict, get, put,
}
use tai_mcp_ssh.Prelude.Int.{pos}
use tai_mcp_ssh.Str.Utf8.{encode}
use tai_mcp_ssh.Str.Path.{
  PurePath, path_of, join_path, path_name, parent, path_text, is_relative_to,
}
use tai_mcp_ssh.Errors.{
  Exc, transfer_denied, host_unreachable, file_not_found, os_error, runtime_error, sftp_error,
  is_dead_error,
}
use tai_mcp_ssh.Audit.Value.{Value, text, number, flag, optional_text}
use tai_mcp_ssh.Process.{
  Env, Process, M, Stream, str, bytes, missing, Reads, eof, chunk, broken, LocalReads, local_eof,
  local_broken, local_chunk, pure, throw, ask, modify, catch, record_event, ◌>>=◌, ◌>>◌,
}
use tai_mcp_ssh.Paths.{downloads_dir}
use tai_mcp_ssh.Ssh.Connection.{mark_dead, raise_fault, check_reply, start_sftp}
use tai_mcp_ssh.Ssh.Pool.{get_conn}

pub record TransferResult : Type 0 where
  pub bytes : ℕ
  pub sha256 : Text
  pub local_path : Text
  pub remote_path : Text

abbrev pub permission_denied : ℕ
permission_denied = 3

-- an answer, or the exception that stands for its absence
unfoldable pub some_or_raise : {A : Type 0} → Exc → Option A → M A
some_or_raise e none = throw e
some_or_raise e (some a) = pure a

unfoldable pub true_or_raise : Exc → Bool → M (Unit {0})
true_or_raise e true = pure tt
true_or_raise e false = throw e

unfoldable pub expanded : Env → PurePath → M PurePath
expanded env p = do q ← ask (λ t. env.expanduser t p); some_or_raise runtime_error q

unfoldable pub resolved : Env → PurePath → M PurePath
resolved env p = do q ← ask (λ t. env.resolve t p); some_or_raise os_error q

-- a lost transport, or any `OSError`: the connection is marked
unfoldable pub dead_or_raise : {A : Type 0} → ℕ → Exc → M A
dead_or_raise id e = if is_dead_error e then (do mark_dead id; throw host_unreachable) else throw e

-- one chunk of a `put`, and what follows
unfoldable pub send_chunk : Env → ℕ → Text → List ℕ → M (Unit {0})
send_chunk env id remote content = do
  r ← ask (λ t. env.sftp_write t id remote content)
  check_reply r
  modify λ s. record s { uploads = s.uploads ++ (id, remote, content) ∷ [] }

-- the loop of `put`; what is returned is what went through the digest
unfoldable pub send_chunks : Env → ℕ → Text → LocalReads → List ℕ → M (List ℕ)
send_chunks env id remote local_eof digest = pure digest
send_chunks env id remote local_broken digest = throw os_error
send_chunks env id remote (local_chunk [] rest) digest = pure digest
send_chunks env id remote (local_chunk (b ∷ bs) rest) digest = do
  send_chunk env id remote (b ∷ bs)
  send_chunks env id remote rest (digest ++ b ∷ bs)

-- the `try` of `put`
unfoldable pub upload : Env → ℕ → PurePath → Text → M (List ℕ)
upload env id local remote = do
  start_sftp env id
  r ← ask (λ t. env.sftp_open t id remote true)
  check_reply r
  reads ← ask (λ t. env.local_reads t local)
  digest ← send_chunks env id remote reads []
  c ← ask (λ t. env.sftp_close t id remote)
  check_reply c
  pure digest

-- a rejection is recorded, and its exception marked so
unfoldable pub put_rejected : Env → Text → Text → Text → Option Text → M (List ℕ)
put_rejected env host local remote reason = do
  error ← ask env.error_text
  record_event (codes "put") (some host) (
      (codes "local_path", text local)
      ∷ (codes "remote_path", text remote)
      ∷ (codes "reason", optional_text reason)
      ∷ (codes "status", text (codes "rejected"))
      ∷ (codes "error", text error)
      ∷ [])
  throw (transfer_denied true)

-- the `except` clauses of `put`
unfoldable pub put_failed : Env → ℕ → Text → Text → Text → Option Text → Exc → M (List ℕ)
put_failed env id host local remote reason (sftp_error code) =
    if code == permission_denied
    then put_rejected env host local remote reason
    else throw (sftp_error code)
put_failed env id host local remote reason e = dead_or_raise id e

unfoldable pub put_file : Env → Text → Text → Text → Option Text → M TransferResult
put_file env host local_path remote reason = do
  p ← expanded env (path_of local_path)
  local ← resolved env p
  found ← ask (λ t. env.is_file t local)
  true_or_raise file_not_found found
  answer ← ask (λ t. env.file_size t local)
  size ← some_or_raise os_error answer
  id ← get_conn env host
  digest ←
      catch (upload env id local remote) (put_failed env id host (path_text local) remote reason)
  record_event (codes "put") (some host) (
      (codes "local_path", text (path_text local))
      ∷ (codes "remote_path", text remote)
      ∷ (codes "bytes", number (pos size))
      ∷ (codes "sha256", text (env.sha256 digest))
      ∷ (codes "reason", optional_text reason)
      ∷ (codes "status", text (codes "done"))
      ∷ [])
  pure (record {
    bytes = size;
    sha256 = env.sha256 digest;
    local_path = path_text local;
    remote_path = remote;
  })

-- the bytes of a chunk that a read gives
unfoldable pub chunk_bytes : Stream → List ℕ
chunk_bytes missing = []
chunk_bytes (bytes content) = content
chunk_bytes (str s) = encode s

or_empty : Option (List ℕ) → List ℕ
or_empty none = []
or_empty (some content) = content

-- a local file, as it has been written
unfoldable pub downloaded : PurePath → Process → List ℕ
unfolding or_empty
downloaded p s = or_empty (get (path_text p) s.downloads)

unfoldable pub write_chunk : Env → PurePath → List ℕ → M (Unit {0})
write_chunk env dest content = do
  written ← ask (λ t. env.local_write t dest content)
  true_or_raise os_error written
  modify
      λ s. record s { downloads = put (path_text dest) (downloaded dest s ++ content) s.downloads }

-- a chunk of a `get`, and the rounds after it; an empty one ends the loop
unfoldable pub with_chunk : Env → PurePath → List ℕ → (List ℕ → M (List ℕ)) → List ℕ → M (List ℕ)
with_chunk env dest digest again [] = pure digest
with_chunk env dest digest again (b ∷ bs) = do
  write_chunk env dest (b ∷ bs)
  again (digest ++ b ∷ bs)

-- the loop of `get`; the size is that of what went through the digest
unfoldable pub take_chunks : Env → PurePath → Reads → List ℕ → M (List ℕ)
take_chunks env dest eof digest = pure digest
take_chunks env dest (broken f) digest = raise_fault f
take_chunks env dest (chunk c rest) digest =
    with_chunk env dest digest (take_chunks env dest rest) (chunk_bytes c)

-- the `try` of `get`
unfoldable pub download : Env → ℕ → PurePath → Text → M (List ℕ)
download env id dest remote = do
  start_sftp env id
  r ← ask (λ t. env.sftp_open t id remote false)
  check_reply r
  opened ← ask (λ t. env.open_write t dest)
  true_or_raise os_error opened
  modify (λ s. record s { downloads = put (path_text dest) [] s.downloads })
  reads ← ask (λ t. env.remote_reads t id remote)
  digest ← take_chunks env dest reads []
  c ← ask (λ t. env.sftp_close t id remote)
  check_reply c
  pure digest

unfoldable pub get_rejected : {A : Type 0} → Text → Text → Text → Option Text → Text → M A
get_rejected host local remote reason error = do
  record_event (codes "get") (some host) (
      (codes "remote_path", text remote)
      ∷ (codes "local_path", text local)
      ∷ (codes "reason", optional_text reason)
      ∷ (codes "status", text (codes "rejected"))
      ∷ (codes "error", text error)
      ∷ [])
  throw (transfer_denied true)

-- the `except` clauses of `get`
unfoldable pub get_failed : Env → ℕ → Text → Text → Text → Option Text → Exc → M (List ℕ)
get_failed env id host local remote reason (sftp_error code) =
    if code == permission_denied
    then (do error ← ask env.error_text; get_rejected host local remote reason error)
    else throw (sftp_error code)
get_failed env id host local remote reason e = dead_or_raise id e

-- what `get` does once the destination is allowed
unfoldable pub fetch : Env → Text → Text → Option Text → PurePath → Bool → M TransferResult
fetch env host remote reason dest outside = do
  made ← ask (λ t. env.make_dirs t (parent dest))
  true_or_raise os_error made
  id ← get_conn env host
  digest ←
      catch (download env id dest remote) (get_failed env id host (path_text dest) remote reason)
  record_event (codes "get") (some host) (
      (codes "remote_path", text remote)
      ∷ (codes "local_path", text (path_text dest))
      ∷ (codes "bytes", number (pos (length digest)))
      ∷ (codes "sha256", text (env.sha256 digest))
      ∷ (codes "reason", optional_text reason)
      ∷ (codes "status", text (codes "done"))
      ∷ (codes "outside", flag outside)
      ∷ [])
  pure (record {
    bytes = length digest;
    sha256 = env.sha256 digest;
    local_path = path_text dest;
    remote_path = remote;
  })

-- the destination before it is resolved
unfoldable pub destination : Env → Text → Text → Option Text → M PurePath
destination env host remote none =
    pure (join_path (downloads_dir env (some host)) (path_of (path_name (path_of remote))))
destination env host remote (some local_path) = expanded env (path_of local_path)

unfoldable pub get_file : Env → Text → Text → Option Text → Option Text → Bool → M TransferResult
get_file env host remote local_path reason allow_outside = do
  d ← destination env host remote local_path
  dest ← resolved env d
  root ← resolved env (downloads_dir env none)
  let outside = not (is_relative_to dest root)
  if outside && not allow_outside
      then get_rejected host (path_text dest) remote reason
          (codes "destination outside downloads dir")
      else fetch env host remote reason dest outside
