-- ===== src/Transfer/Reported.antt =====
-- What `TransferManager.get` of transfer.py has written and returned.
use tai_mcp_ssh.Prelude.{
  ℕ, Bool, Option, some, List, ◌==◌, Text, Dict, codes, get, length, ◌≡◌, ◌≢◌, refl, sym, ap, ◌∙◌,
  Bool-cases, inl, inr,
}
use tai_mcp_ssh.Str.Path.{PurePath, path_text}
use tai_mcp_ssh.Errors.{Exc, ok, ok-injective, sftp_error}
use tai_mcp_ssh.Audit.Value.{Value}
use tai_mcp_ssh.Process.{Env, Process, pure, throw, ask, record_event, ◌>>=◌}
use tai_mcp_ssh.Process.Quiet.{Quiet-ask}
use tai_mcp_ssh.Ssh.Pool.Frame.{get_conn-Quiet}
use tai_mcp_ssh.Transfer.{
  TransferResult, get_rejected, get_failed, fetch, get_file, permission_denied,
}
use tai_mcp_ssh.Transfer.Frame.{destination-Quiet, resolved-Quiet, true_or_raise-Quiet}
use tai_mcp_ssh.Transfer.Returns.{Does, Stable, Does-then, Does-after, Does-catch, Does-if}
use tai_mcp_ssh.Transfer.Sent.{dead_or_raise-throws}
use tai_mcp_ssh.Transfer.Received.{IsReceived, download-Does}

get_failed-throws :
    (env : Env) (id : ℕ) (host local remote : Text) (reason : Option Text) (e : Exc) (t : Process)
    (a : List ℕ)
    → (get_failed env id host local remote reason e t).0 ≢ ok a
unfolding get_failed get_rejected ask record_event throw ◌>>=◌
get_failed-throws env id host local remote reason (sftp_error code) t a =
    elim (Bool-cases (code == permission_denied)) [
      | inl h ↦ rw h (λ g. absurd (cc))
      | inr h ↦ rw h (λ g. absurd (cc))
    ]
get_failed-throws env id host local remote reason e t a = dead_or_raise-throws id _ t a

-- the result tells of the file
record Reported (env : Env) (remote : Text) (s : Process) (r : TransferResult) (t : Process)
    : Type 0 where
  pub content : List ℕ
  pub received : IsReceived env remote r.local_path content t
  pub sized : r.bytes ≡ length content
  pub hashed : r.sha256 ≡ env.sha256 content

module _ (env : Env) (host remote : Text) (reason : Option Text) where
  stable : Stable (Reported env remote)
  stable s s' a t w h = record {
    content = h.content;
    received = h.received;
    sized = h.sized;
    hashed = h.hashed;
  }

  -- the record of a success
  recorded-Does :
      (fields : Dict Value) (r : TransferResult)
      → Does
          (λ s a t. (a ≡ r) × (t.downloads ≡ s.downloads))
          (record_event (codes "get") (some host) fields >>= λ _. pure r)
  unfolding record_event pure ◌>>=◌
  recorded-Does fields r = record { at = λ s a h. (sym (ok-injective h), refl) }

  fetch-Does :
      (dest : PurePath) (outside : Bool)
      → Does (Reported env remote) (fetch env host remote reason dest outside)
  unfolding fetch
  fetch-Does dest outside = Does-after _ _ stable (Quiet-ask _) (λ made.
      Does-after _ _ stable (true_or_raise-Quiet _ made refl) (λ _.
        Does-after _ _ stable (get_conn-Quiet env host) (λ id.
          Does-then _ _
            (Does-catch _ _ (download-Does env dest remote id)
              (get_failed-throws env id host _ remote reason))
            (λ s d t r got h.
              let e = (recorded-Does _ _).at t r h in
              record {
                content = d;
                received = record {
                  tick = got.tick;
                  id = got.id;
                  all_read = got.all_read;
                  held = rw e.0 (ap (λ z. get (path_text dest) z) e.1 ∙ got.held);
                };
                sized = ap (λ x. x.bytes) e.0;
                hashed = ap (λ x. x.sha256) e.0;
              }))))

  get_rejected-Does :
      (local error : Text)
      → Does (Reported env remote) (get_rejected host local remote reason error)
  unfolding get_rejected record_event throw ◌>>=◌
  get_rejected-Does local error = record { at = λ s r h. absurd (cc) }

  get_file-Does :
      (local_path : Option Text) (allow_outside : Bool)
      → Does (Reported env remote) (get_file env host remote local_path reason allow_outside)
  unfolding get_file
  get_file-Does local_path allow_outside =
      Does-after _ _ stable (destination-Quiet env host remote local_path) (λ d.
        Does-after _ _ stable (resolved-Quiet env d) (λ dest.
          Does-after _ _ stable (resolved-Quiet env _)
            (λ root. Does-if _ _ _ (get_rejected-Does _ _) (fetch-Does dest _))))

-- Where `get` returns, some open of the remote path was read to its end without an error, the local
-- file at the path that is returned holds its whole content and nothing else, the number of bytes
-- that is returned is the length of that content, and the SHA-256 is that of it.
pub get_file-IsReceived :
    (env : Env) (host remote : Text) (local_path reason : Option Text) (allow_outside : Bool)
    (s : Process) (r : TransferResult)
    → (get_file env host remote local_path reason allow_outside s).0 ≡ ok r
    → (content : List ℕ) × (r.bytes ≡ length content)
      × (r.sha256 ≡ env.sha256 content)
      × IsReceived env remote r.local_path content
          (get_file env host remote local_path reason allow_outside s).1
get_file-IsReceived env host remote local_path reason allow_outside s r h =
    let d = (get_file-Does env host remote reason local_path allow_outside).at s r h in
    (d.content, d.sized, d.hashed, d.received)
