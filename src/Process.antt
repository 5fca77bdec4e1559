-- ===== src/Process.antt =====
-- The state of the server process, what it calls outside, and actions on it.
--
-- An action takes the process and returns a result and the process afterwards; what was changed
-- before an exception stays changed. Everything that the program does not decide itself is in `Env`,
-- as a function of the number of outside calls made so far, so that each call may answer
-- differently and no answer is assumed.
pub mod Keeps
pub mod Quiet
pub mod Frame
pub mod Settles
pub mod Tells
pub mod Run
use tai_mcp_ssh.Prelude.{
  ℕ, zero, suc, ◌+◌, Bool, true, false, Option, none, some, List, [], ◌∷◌, ◌++◌, ◌==◌,
  if◌then◌else◌, Text, Dict, get, put, remove, refl, ◌≡◌,
}
use tai_mcp_ssh.Prelude.Int.{ℤ}
use tai_mcp_ssh.Errors.{Exc, Result, ok, raise, pending, process_error, other_error}
use tai_mcp_ssh.Audit.Value.{Value, Event}
use tai_mcp_ssh.Config.Node.{Node}
use tai_mcp_ssh.Config.Entry.{Host}
use tai_mcp_ssh.Config.File.{Config, Toml}
use tai_mcp_ssh.Str.Path.{PurePath}
use tai_mcp_ssh.Sessions.State.{SessionState}

-- stdout or stderr of a finished command: text, bytes, or `None`
pub data Stream : Type 0 where
  str : Text → Stream
  bytes : List ℕ → Stream
  missing : Stream

-- `status` is `none` where asyncssh has no exit code.
pub record Completed : Type 0 where
  pub status : Option ℕ
  pub stdout : Stream
  pub stderr : Stream

-- How a command over SSH ends: it finishes, one of `DEAD_CONN_ERRORS` is raised, `ProcessError` is
-- raised because of `check`, or something else is raised.
pub data Reply : Type 0 where
  finished : Completed → Reply
  transport_dead process_failed other_failed : Reply

-- The keyword arguments of `asyncssh.connect` that the program varies.
pub data ClientKeys : Type 0 where
  default_keys no_keys : ClientKeys
  key_file : Node → ClientKeys

pub record ConnectArgs : Type 0 where
  pub target : Node
  pub config : Bool
  pub username : Option Node
  pub port : Option ℤ
  pub client_keys : ClientKeys
  pub gss_off : Bool
  pub password : Option Text

pub data Opened : Type 0 where
  opened dead_on_open failed_on_open : Opened

-- The answer of the keychain.
pub data Secret : Type 0 where
  found : Text → Secret
  no_entry keyring_error : Secret

-- How an SFTP call ends: an `SFTPError` with its code, a lost transport, or something else.
pub data Fault : Type 0 where
  status : ℕ → Fault
  lost strange : Fault

pub data SftpReply : Type 0 where
  fine : SftpReply
  faulty : Fault → SftpReply

-- What the reads of an open file give, one after the other. An open that fails is a first read that
-- fails; a local failure is an `OSError`.
pub data Reads : Type 0 where
  eof : Reads
  chunk : Stream → Reads → Reads
  broken : Fault → Reads

pub data LocalReads : Type 0 where
  local_eof local_broken : LocalReads
  local_chunk : List ℕ → LocalReads → LocalReads

pub record Env : Type 0 where
  pub now : ℕ → ℕ
  pub monotonic : ℕ → ℕ
  pub new_ulid : ℕ → Text
  pub ssh_config_exists : ℕ → Bool
  pub get_password : ℕ → Text → Text → Secret
  pub connect : ℕ → ConnectArgs → Opened
  pub exec : ℕ → ℕ → Text → Bool → Bool → Reply
  pub error_text : ℕ → Text
  -- SFTP, on a connection
  pub start_sftp : ℕ → ℕ → SftpReply
  pub sftp_open : ℕ → ℕ → Text → Bool → SftpReply
  pub sftp_write : ℕ → ℕ → Text → List ℕ → SftpReply
  pub sftp_close : ℕ → ℕ → Text → SftpReply
  pub remote_reads : ℕ → ℕ → Text → Reads
  -- the local file system; `none` and `false` are an exception
  pub expanduser : ℕ → PurePath → Option PurePath
  pub resolve : ℕ → PurePath → Option PurePath
  pub is_file : ℕ → PurePath → Bool
  pub file_size : ℕ → PurePath → Option ℕ
  pub local_reads : ℕ → PurePath → LocalReads
  pub make_dirs : ℕ → PurePath → Bool
  pub open_write : ℕ → PurePath → Bool
  pub local_write : ℕ → PurePath → List ℕ → Bool
  -- the outer `none` is an `OSError`, the inner one a file that does not exist
  pub hosts_file : ℕ → Option (Option Text)
  -- what does not change while the process runs, and the libraries
  pub environ : Text → Option Text
  pub user_home : PurePath
  pub is_darwin : Bool
  pub sha256 : List ℕ → Text
  pub toml : Toml
  -- `==` on two values of a document, floats and times included
  pub same_value : Node → Node → Bool

-- `Connection` of ssh.py
pub record Connection : Type 0 where
  pub host : Host
  pub tmux_path : Option Text
  pub home_dir : Option Text
  pub dead : Bool

-- Connections are objects that the pool and its callers share: `conns` is where they live, and a
-- reference is a number below `next_conn`. `closed` and `sent` are what was done outside: the
-- connections closed, and the commands handed to SSH. `uploads` are the chunks written to remote
-- files, with the connection and the path, and `downloads` the local files written, by their paths.
-- `config` is that of `Services`.
pub record Process : Type 0 where
  pub tick : ℕ
  pub conns : ℕ → Connection
  pub next_conn : ℕ
  pub hosts : Dict Host
  pub idle_timeout_hours : ℕ
  pub connections : Dict ℕ
  pub ready : List Text
  pub last_maintenance : Dict ℕ
  pub tasks : List ℕ
  pub sessions : Dict SessionState
  pub audit : List Event
  pub closed : List ℕ
  pub sent : List (ℕ × Text)
  pub config : Config
  pub uploads : List (ℕ × Text × List ℕ)
  pub downloads : Dict (List ℕ)

abbrev pub M : Type 0 → Type 0
M A = Process → Result A × Process

module _ {A : Type 0} where
  unfoldable pub pure : A → M A
  pure a s = (ok a, s)

  unfoldable pub throw : Exc → M A
  throw e s = (raise e, s)

  -- a loop that has used up its fuel
  unfoldable pub out_of_fuel : M A
  out_of_fuel s = (pending, s)

  unfoldable pub lift : Result A → M A
  lift r s = (r, s)

  unfoldable pub gets : (Process → A) → M A
  gets f s = (ok (f s), s)

  -- an answer from outside
  unfoldable pub ask : (ℕ → A) → M A
  ask f s = (ok (f s.tick), record s { tick = suc s.tick })

unfoldable pub modify : (Process → Process) → M (Unit {0})
modify f s = (ok tt, f s)

module _ {A B : Type 0} where
  abbrev pub continue : Result A → (A → M B) → M B
  continue (ok a) f s = f a s
  continue (raise e) f s = (raise e, s)
  continue pending f s = (pending, s)

  infixl 10 ◌>>=◌ ◌>>◌
  unfoldable pub ◌>>=◌ : M A → (A → M B) → M B
  ◌>>=◌ m f s = let (r, s') = m s in continue r f s'

  abbrev pub ◌>>◌ : M A → M B → M B
  m >> n = m >>= λ _. n

module _ {A : Type 0} where
  abbrev pub on_error : Result A → (Exc → M A) → M A
  on_error (ok a) h s = (ok a, s)
  on_error (raise e) h s = h e s
  on_error pending h s = (pending, s)

  -- `try: m except …: h`; a handler that re-raises does so itself
  unfoldable pub catch : M A → (Exc → M A) → M A
  catch m h s = let (r, s') = m s in on_error r h s'

-- `audit.record(tool, host=host, **fields)`
unfoldable pub record_event : Text → Option Text → Dict Value → M (Unit {0})
record_event tool host fields s = (
  ok tt,
  record s { audit = s.audit ++ (record { tool = tool; host = host; fields = fields }) ∷ [] },
)

unfoldable pub update_conn : ℕ → (Connection → Connection) → Process → Process
update_conn id f s = record s { conns = λ j. if j == id then f (s.conns j) else s.conns j }

abbrev pub none_fields : Dict Value
none_fields = []
