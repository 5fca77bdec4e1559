-- ===== src/Transfer/Frame.antt =====
-- `TransferManager` of transfer.py, the session registry, and what is recorded before it raises.
use tai_mcp_ssh.Prelude.{
  ℕ, Bool, true, false, Option, none, some, List, [], ◌∷◌, ◌++◌, Text, codes, text_eq,
  text_eq_sound, get-put, put, sym, Bool-cases, inl, inr, Dict, get, ◌≡◌, refl,
}
use tai_mcp_ssh.Str.Path.{PurePath, path_text}
use tai_mcp_ssh.Errors.{Exc, audited, sftp_error}
use tai_mcp_ssh.Audit.Value.{Value}
use tai_mcp_ssh.Audit.Failures.{is_failure}
use tai_mcp_ssh.Sessions.State.{SessionState}
use tai_mcp_ssh.Process.{
  Process, Env, M, Reads, eof, chunk, broken, LocalReads, local_eof, local_broken, local_chunk,
  pure, record_event, ◌>>=◌,
}
use tai_mcp_ssh.Process.Quiet.{
  Place, local_file, remote_files, Nowhere, Writes, Quiet-wider, Quiet, Quiet-pure, Quiet-throw,
  Quiet-ask, Quiet-if, Quiet-modify, Quiet-record_event, Quiet-bind,
}
use tai_mcp_ssh.Process.Tells.{Tells, Tells-Quiet, Tells-if, Tells-bind, Tells-catch, Tells-denial}
use tai_mcp_ssh.Ssh.Connection.Frame.{
  mark_dead-Quiet, raise_fault-Quiet, check_reply-Quiet, start_sftp-Quiet,
}
use tai_mcp_ssh.Ssh.Pool.Frame.{get_conn-Quiet}
use tai_mcp_ssh.Transfer.{
  some_or_raise, true_or_raise, expanded, resolved, dead_or_raise, send_chunk, send_chunks, upload,
  put_rejected, put_failed, put_file, write_chunk, with_chunk, take_chunks, chunk_bytes, download,
  get_rejected, get_failed, fetch, destination, get_file,
}

-- remote files, and a local one
abbrev pub Sending : Place → Type 0
Sending (local_file k) = ⊥
Sending remote_files = Unit

abbrev pub ToFile : PurePath → Place → Type 0
ToFile dest (local_file k) = k ≡ path_text dest
ToFile dest remote_files = ⊥

pub some_or_raise-Quiet :
    {A : Type 0} (e : Exc) (o : Option A) → audited e ≡ false → Quiet Nowhere (some_or_raise e o)
unfolding some_or_raise
some_or_raise-Quiet e none calm = Quiet-throw e calm
some_or_raise-Quiet e (some a) calm = Quiet-pure a

pub true_or_raise-Quiet :
    (e : Exc) (b : Bool) → audited e ≡ false → Quiet Nowhere (true_or_raise e b)
unfolding true_or_raise
true_or_raise-Quiet e true calm = Quiet-pure tt
true_or_raise-Quiet e false calm = Quiet-throw e calm

pub expanded-Quiet : (env : Env) (p : PurePath) → Quiet Nowhere (expanded env p)
unfolding expanded
expanded-Quiet env p = Quiet-bind _ _ (Quiet-ask _) (λ q. some_or_raise-Quiet _ q refl)

pub resolved-Quiet : (env : Env) (p : PurePath) → Quiet Nowhere (resolved env p)
unfolding resolved
resolved-Quiet env p = Quiet-bind _ _ (Quiet-ask _) (λ q. some_or_raise-Quiet _ q refl)

pub dead_or_raise-Quiet :
    {A : Type 0} (id : ℕ) (e : Exc) → audited e ≡ false → Quiet Nowhere (dead_or_raise {A = A} id e)
unfolding dead_or_raise
dead_or_raise-Quiet id e calm =
    Quiet-if _ _ _ (Quiet-bind _ _ (mark_dead-Quiet id) (λ _. Quiet-throw _ refl))
      (Quiet-throw e calm)

-- what a write to a local file changes
Writes-to :
    (dest : PurePath) (s : Process) (content : List ℕ)
    → Writes (ToFile dest) s (record s { downloads = put (path_text dest) content s.downloads })
Writes-to dest s content = record {
  files = λ k h. elim (Bool-cases (text_eq (path_text dest) k)) [
    | inl e ↦ absurd (h (sym (text_eq_sound (path_text dest) k e)))
    | inr e ↦ rw (get-put (path_text dest) k content s.downloads, e) refl
  ];
  sends = λ h. refl;
}

send_chunk-Quiet :
    (env : Env) (id : ℕ) (remote : Text) (bs : List ℕ) → Quiet Sending (send_chunk env id remote bs)
unfolding send_chunk
send_chunk-Quiet env id remote bs = Quiet-bind _ _ (Quiet-ask _) (λ r.
    Quiet-bind _ _ (Quiet-wider (check_reply-Quiet r)) (λ _.
      Quiet-modify _ (λ s. (refl, refl, refl))
        (λ s. record { files = λ k h. refl; sends = λ h. absurd (h tt) })))

send_chunks-Quiet :
    (env : Env) (id : ℕ) (remote : Text) (reads : LocalReads) (digest : List ℕ)
    → Quiet Sending (send_chunks env id remote reads digest)
unfolding send_chunks
send_chunks-Quiet env id remote local_eof digest = Quiet-pure digest
send_chunks-Quiet env id remote local_broken digest = Quiet-throw _ refl
send_chunks-Quiet env id remote (local_chunk [] rest) digest = Quiet-pure digest
send_chunks-Quiet env id remote (local_chunk (b ∷ bs) rest) digest =
    Quiet-bind _ _ (send_chunk-Quiet env id remote (b ∷ bs))
      (λ _. send_chunks-Quiet env id remote rest (digest ++ b ∷ bs))

pub upload-Quiet :
    (env : Env) (id : ℕ) (local : PurePath) (remote : Text)
    → Quiet Sending (upload env id local remote)
unfolding upload
upload-Quiet env id local remote = Quiet-bind _ _ (Quiet-wider (start_sftp-Quiet env id)) (λ _.
    Quiet-bind _ _ (Quiet-ask _) (λ r. Quiet-bind _ _ (Quiet-wider (check_reply-Quiet r)) (λ _.
      Quiet-bind _ _ (Quiet-ask _) (λ reads.
        Quiet-bind _ _ (send_chunks-Quiet env id remote reads []) (λ digest.
          Quiet-bind _ _ (Quiet-ask _)
            (λ c. Quiet-bind _ _ (Quiet-wider (check_reply-Quiet c)) (λ _. Quiet-pure digest)))))))

write_chunk-Quiet :
    (env : Env) (dest : PurePath) (bs : List ℕ) → Quiet (ToFile dest) (write_chunk env dest bs)
unfolding write_chunk
write_chunk-Quiet env dest bs = Quiet-bind _ _ (Quiet-ask _) (λ w.
    Quiet-bind _ _ (Quiet-wider (true_or_raise-Quiet _ w refl))
      (λ _. Quiet-modify _ (λ s. (refl, refl, refl)) (λ s. Writes-to dest s _)))

with_chunk-Quiet :
    (env : Env) (dest : PurePath) (digest : List ℕ) (again : List ℕ → M (List ℕ)) (bs : List ℕ)
    → ((d : List ℕ) → Quiet (ToFile dest) (again d))
    → Quiet (ToFile dest) (with_chunk env dest digest again bs)
unfolding with_chunk
with_chunk-Quiet env dest digest again [] h = Quiet-pure digest
with_chunk-Quiet env dest digest again (b ∷ bs) h =
    Quiet-bind _ _ (write_chunk-Quiet env dest (b ∷ bs)) (λ _. h _)

take_chunks-Quiet :
    (env : Env) (dest : PurePath) (reads : Reads) (digest : List ℕ)
    → Quiet (ToFile dest) (take_chunks env dest reads digest)
unfolding take_chunks
take_chunks-Quiet env dest eof digest = Quiet-pure digest
take_chunks-Quiet env dest (broken f) digest = Quiet-wider (raise_fault-Quiet f)
take_chunks-Quiet env dest (chunk c rest) digest =
    with_chunk-Quiet env dest digest _ (chunk_bytes c) (take_chunks-Quiet env dest rest)

pub download-Quiet :
    (env : Env) (id : ℕ) (dest : PurePath) (remote : Text)
    → Quiet (ToFile dest) (download env id dest remote)
unfolding download
download-Quiet env id dest remote = Quiet-bind _ _ (Quiet-wider (start_sftp-Quiet env id)) (λ _.
    Quiet-bind _ _ (Quiet-ask _) (λ r. Quiet-bind _ _ (Quiet-wider (check_reply-Quiet r)) (λ _.
      Quiet-bind _ _ (Quiet-ask _) (λ opened.
        Quiet-bind _ _ (Quiet-wider (true_or_raise-Quiet _ opened refl)) (λ _.
          Quiet-bind _ _ (Quiet-modify _ (λ s. (refl, refl, refl)) (λ s. Writes-to dest s _)) (λ _.
            Quiet-bind _ _ (Quiet-ask _) (λ reads.
              Quiet-bind _ _ (take_chunks-Quiet env dest reads []) (λ digest.
                Quiet-bind _ _ (Quiet-ask _) (λ c.
                  Quiet-bind _ _ (Quiet-wider (check_reply-Quiet c))
                    (λ _. Quiet-pure digest))))))))))

pub destination-Quiet :
    (env : Env) (host remote : Text) (o : Option Text)
    → Quiet Nowhere (destination env host remote o)
unfolding destination
destination-Quiet env host remote none = Quiet-pure _
destination-Quiet env host remote (some p) = expanded-Quiet env _

module _ {Q : Dict SessionState → Type 0} where
  get_rejected-Tells :
      {A : Type 0} (host local remote : Text) (reason : Option Text) (error : Text)
      → Tells Q (codes "get") (get_rejected {A = A} host local remote reason error)
  unfolding get_rejected get text_eq
  get_rejected-Tells host local remote reason error = Tells-denial _ _ refl refl

  put_rejected-Tells :
      (env : Env) (host local remote : Text) (reason : Option Text)
      → Tells Q (codes "put") (put_rejected env host local remote reason)
  unfolding put_rejected get text_eq
  put_rejected-Tells env host local remote reason =
      Tells-bind _ _ (Tells-Quiet (Quiet-ask _)) (λ error. Tells-denial _ _ refl refl)

  get_failed-Tells :
      (env : Env) (id : ℕ) (host local remote : Text) (reason : Option Text) (e : Exc)
      → audited e ≡ false
      → Tells Q (codes "get") (get_failed env id host local remote reason e)
  unfolding get_failed
  get_failed-Tells env id host local remote reason (sftp_error code) calm =
      Tells-if _ _ _
        (Tells-bind _ _ (Tells-Quiet (Quiet-ask _))
          (λ error. get_rejected-Tells host local remote reason error))
        (Tells-Quiet (Quiet-throw _ refl))
  get_failed-Tells env id host local remote reason e calm =
      Tells-Quiet (dead_or_raise-Quiet id _ calm)

  put_failed-Tells :
      (env : Env) (id : ℕ) (host local remote : Text) (reason : Option Text) (e : Exc)
      → audited e ≡ false
      → Tells Q (codes "put") (put_failed env id host local remote reason e)
  unfolding put_failed
  put_failed-Tells env id host local remote reason (sftp_error code) calm =
      Tells-if _ _ _ (put_rejected-Tells env host local remote reason)
        (Tells-Quiet (Quiet-throw _ refl))
  put_failed-Tells env id host local remote reason e calm =
      Tells-Quiet (dead_or_raise-Quiet id _ calm)

  recorded-Tells :
      {A : Type 0} {tool : Text} (host : Option Text) (fields : Dict Value) (a : A)
      → is_failure (record { tool = tool; host = host; fields = fields }) ≡ false
      → Tells Q tool (record_event tool host fields >>= λ _. pure a)
  recorded-Tells host fields a h =
      Tells-Quiet (Quiet-bind _ _ (Quiet-record_event _ host fields h) (λ _. Quiet-pure a))

  pub put_file-Tells :
      (env : Env) (host local_path remote : Text) (reason : Option Text)
      → Tells Q (codes "put") (put_file env host local_path remote reason)
  unfolding put_file get text_eq
  put_file-Tells env host local_path remote reason =
      Tells-bind _ _ (Tells-Quiet (expanded-Quiet env _)) (λ p.
        Tells-bind _ _ (Tells-Quiet (resolved-Quiet env p)) (λ local.
          Tells-bind _ _ (Tells-Quiet (Quiet-ask _)) (λ found.
            Tells-bind _ _ (Tells-Quiet (true_or_raise-Quiet _ found refl)) (λ _.
              Tells-bind _ _ (Tells-Quiet (Quiet-ask _)) (λ answer.
                Tells-bind _ _ (Tells-Quiet (some_or_raise-Quiet _ answer refl)) (λ size.
                  Tells-bind _ _ (Tells-Quiet (get_conn-Quiet env host)) (λ id.
                    Tells-bind _ _
                      (Tells-catch _ _ (upload-Quiet env id local remote)
                        (put_failed-Tells env id host _ remote reason))
                      (λ digest. recorded-Tells _ _ _ refl))))))))

  fetch-Tells :
      (env : Env) (host remote : Text) (reason : Option Text) (dest : PurePath) (outside : Bool)
      → Tells Q (codes "get") (fetch env host remote reason dest outside)
  unfolding fetch get text_eq
  fetch-Tells env host remote reason dest outside =
      Tells-bind _ _ (Tells-Quiet (Quiet-ask _)) (λ made.
        Tells-bind _ _ (Tells-Quiet (true_or_raise-Quiet _ made refl)) (λ _.
          Tells-bind _ _ (Tells-Quiet (get_conn-Quiet env host)) (λ id.
            Tells-bind _ _
              (Tells-catch _ _ (download-Quiet env id dest remote)
                (get_failed-Tells env id host _ remote reason))
              (λ digest. recorded-Tells _ _ _ refl))))

  pub get_file-Tells :
      (env : Env) (host remote : Text) (local_path reason : Option Text) (allow_outside : Bool)
      → Tells Q (codes "get") (get_file env host remote local_path reason allow_outside)
  unfolding get_file
  get_file-Tells env host remote local_path reason allow_outside =
      Tells-bind _ _ (Tells-Quiet (destination-Quiet env host remote local_path)) (λ d.
        Tells-bind _ _ (Tells-Quiet (resolved-Quiet env d)) (λ dest.
          Tells-bind _ _ (Tells-Quiet (resolved-Quiet env _)) (λ root.
            Tells-if _ _ _ (get_rejected-Tells host _ remote reason _)
              (fetch-Tells env host remote reason dest _))))
