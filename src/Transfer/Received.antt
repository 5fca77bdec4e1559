-- ===== src/Transfer/Received.antt =====
-- What the loop of `TransferManager.get` of transfer.py has written where it returns.
use tai_mcp_ssh.Prelude.{
  ℕ, Option, none, some, List, [], ◌∷◌, ◌++◌, Text, get, get-put, text_eq_refl, append-nil,
  append_assoc, ◌≡◌, refl, sym, ap, ◌∙◌,
}
use tai_mcp_ssh.Str.Path.{PurePath, path_text}
use tai_mcp_ssh.Errors.{ok, ok-injective}
use tai_mcp_ssh.Process.{
  Env, Process, M, Fault, status, lost, strange, Reads, eof, chunk, broken, pure, ask, ◌>>=◌,
}
use tai_mcp_ssh.Process.Quiet.{Quiet-ask}
use tai_mcp_ssh.Ssh.Connection.{check_reply, raise_fault}
use tai_mcp_ssh.Ssh.Connection.Frame.{start_sftp-Quiet, check_reply-Quiet}
use tai_mcp_ssh.Transfer.{
  write_chunk, with_chunk, take_chunks, chunk_bytes, downloaded, or_empty, download,
}
use tai_mcp_ssh.Transfer.Frame.{true_or_raise-Quiet}
use tai_mcp_ssh.Transfer.Returns.{
  Does, Stable, Does-then, Does-after, Does-pure, Does-throw, Does-modify,
}

-- a chunk and what follows it; an empty one is the end
unfoldable pub content_from : List ℕ → Option (List ℕ) → Option (List ℕ)
content_from [] rest = some []
content_from (b ∷ bs) none = none
content_from (b ∷ bs) (some content) = some (b ∷ bs ++ content)

-- the content of a remote file, if every read of it succeeds up to its end
unfoldable pub remote_content : Reads → Option (List ℕ)
remote_content eof = some []
remote_content (broken f) = none
remote_content (chunk c rest) = content_from (chunk_bytes c) (remote_content rest)

module _ (dest : PurePath) where
  -- where the file holds what went through the digest, it does so again
  record Filled (from : Option (List ℕ)) (digest : List ℕ) (s : Process) (d : List ℕ) (t : Process)
      : Type 0 where
    pub content : List ℕ
    pub digested : d ≡ digest ++ content
    pub all_read : from ≡ some content
    pub written :
        get (path_text dest) s.downloads ≡ some digest → get (path_text dest) t.downloads ≡ some d

  abbrev Grown : List ℕ → Process → Unit {0} → Process → Type 0
  Grown c s a t =
      (digest : List ℕ)
      → get (path_text dest) s.downloads ≡ some digest
      → get (path_text dest) t.downloads ≡ some (digest ++ c)

  write_chunk-Does : (env : Env) (c : List ℕ) → Does (Grown c) (write_chunk env dest c)
  unfolding write_chunk downloaded or_empty
  write_chunk-Does env c = Does-after _ _ stable (Quiet-ask _) (λ w.
      Does-after _ _ stable (true_or_raise-Quiet _ w refl) (λ _. Does-modify _ (λ s digest held.
        rw
          (
            get-put (path_text dest) (path_text dest)
                (or_empty (get (path_text dest) s.downloads) ++ c) s.downloads,
            text_eq_refl (path_text dest),
            held,
          )
          refl)))
    where
      stable : Stable (Grown c)
      stable s s' a t w h digest held = h digest (w.files (path_text dest) (λ x. x) ∙ held)

  ended : (digest : List ℕ) → Does (Filled (some []) digest) (pure digest)
  ended digest = Does-pure _ (λ s. record {
    content = [];
    digested = sym (append-nil digest);
    all_read = refl;
    written = λ held. held;
  })

  raise_fault-Does :
      {A : Type 0} {R : Process → A → Process → Type 0} (f : Fault) → Does R (raise_fault f)
  unfolding raise_fault
  raise_fault-Does (status code) = Does-throw _
  raise_fault-Does lost = Does-throw _
  raise_fault-Does strange = Does-throw _

  with_chunk-Does :
      (env : Env) (digest : List ℕ) (again : List ℕ → M (List ℕ)) (rest : Option (List ℕ))
      (c : List ℕ)
      → ((d : List ℕ) → Does (Filled rest d) (again d))
      → Does (Filled (content_from c rest) digest) (with_chunk env dest digest again c)
  unfolding with_chunk content_from
  with_chunk-Does env digest again rest [] loop = ended digest
  with_chunk-Does env digest again rest (b ∷ bs) loop =
      Does-then _ _ (write_chunk-Does env (b ∷ bs)) (λ s a t d grown h.
        let l = (loop (digest ++ b ∷ bs)).at t d h in
        record {
          content = b ∷ bs ++ l.content;
          digested = l.digested ∙ append_assoc digest (b ∷ bs) l.content;
          all_read = rw l.all_read refl;
          written = λ held. l.written (grown digest held);
        })

  take_chunks-Does :
      (env : Env) (reads : Reads) (digest : List ℕ)
      → Does (Filled (remote_content reads) digest) (take_chunks env dest reads digest)
  unfolding take_chunks remote_content
  take_chunks-Does env eof digest = ended digest
  take_chunks-Does env (broken f) digest = raise_fault-Does f
  take_chunks-Does env (chunk c rest) digest =
      with_chunk-Does env digest _ (remote_content rest) (chunk_bytes c) (take_chunks-Does env rest)

-- The whole content of a remote file, as it was read, is that of the local file.
pub record IsReceived (env : Env) (remote local_path : Text) (content : List ℕ) (t : Process)
    : Type 0 where
  pub tick : ℕ
  pub id : ℕ
  pub all_read : remote_content (env.remote_reads tick id remote) ≡ some content
  pub held : get local_path t.downloads ≡ some content

module _ (env : Env) (dest : PurePath) (remote : Text) (id : ℕ) where
  abbrev pub Fetched : Process → List ℕ → Process → Type 0
  Fetched s d t = IsReceived env remote (path_text dest) d t

  -- nothing more is written
  abbrev Closed : List ℕ → Process → List ℕ → Process → Type 0
  Closed d s a t = (a ≡ d) × (get (path_text dest) t.downloads ≡ get (path_text dest) s.downloads)

  close-Closed :
      (d : List ℕ)
      → Does
          (Closed d)
          (ask (λ t. env.sftp_close t id remote) >>= λ c. check_reply c >>= λ _. pure d)
  close-Closed d =
      Does-after _ _ stable (Quiet-ask _)
        (λ c. Does-after _ _ stable (check_reply-Quiet c) (λ _. Does-pure d (λ s. (refl, refl))))
    where
      stable : Stable (Closed d)
      stable s s' a t w h = (h.0, h.1 ∙ w.files (path_text dest) (λ x. x))

  abbrev Asked : Process → Reads → Process → Type 0
  Asked s a t = (a ≡ env.remote_reads s.tick id remote) × (t.downloads ≡ s.downloads)

  ask-Asked : Does Asked (ask (λ t. env.remote_reads t id remote))
  unfolding ask
  ask-Asked = record { at = λ s a h. (sym (ok-injective h), refl) }

  -- the reads, into a file that is empty
  reads-Fetched :
      (s : Process) (d : List ℕ)
      → get (path_text dest) s.downloads ≡ some []
      → let rest = ask (λ t. env.remote_reads t id remote) >>= λ reads.
          take_chunks env dest reads [] >>= λ digest.
          ask (λ t. env.sftp_close t id remote) >>= λ c. check_reply c >>= λ _. pure digest in
        (rest s).0 ≡ ok d → Fetched s d (rest s).1
  reads-Fetched s d empty h =
      (Does-then {T = λ s₀ e v. get (path_text dest) s₀.downloads ≡ some [] → Fetched s₀ e v} _ _
          ask-Asked
          (λ s₀ reads t₀ e asked g start.
            (Does-then {T = λ u x v. get (path_text dest) u.downloads ≡ some [] → Fetched u x v} _ _
                (take_chunks-Does dest env reads [])
                (λ u x v y filled k at_start.
                  let c = (close-Closed x).at v y k in
                  record {
                    tick = s₀.tick;
                    id = id;
                    all_read =
                        ap (λ r. remote_content r) (sym asked.0)
                        ∙ filled.all_read
                        ∙ ap some (sym (c.0 ∙ filled.digested));
                    held = c.1 ∙ filled.written at_start ∙ ap some (sym c.0);
                  })).at
              t₀ e g (ap (λ z. get (path_text dest) z) asked.1 ∙ start))).at
        s d h empty

  pub download-Does : Does Fetched (download env id dest remote)
  unfolding download
  download-Does = Does-after _ _ stable (start_sftp-Quiet env id) (λ _.
      Does-after _ _ stable (Quiet-ask _) (λ r. Does-after _ _ stable (check_reply-Quiet r) (λ _.
        Does-after _ _ stable (Quiet-ask _) (λ opened.
          Does-after _ _ stable (true_or_raise-Quiet _ opened refl) (λ _.
            Does-then {R = λ s a t. get (path_text dest) t.downloads ≡ some []} _ _
              (Does-modify _ (λ s.
                rw
                  (
                    get-put (path_text dest) (path_text dest) [] s.downloads,
                    text_eq_refl (path_text dest),
                  )
                  refl))
              (λ s a t d empty h. reads-Fetched t d empty h))))))
    where
      stable : Stable Fetched
      stable s s' a t w h = h
