-- ===== src/Transfer/Sent.antt =====
-- What `TransferManager.put` of transfer.py has sent where it returns.
use tai_mcp_ssh.Prelude.{
  ℕ, Option, none, some, List, [], ◌∷◌, ◌++◌, ◌==◌, Text, map, flatten, append-nil, append_assoc,
  ◌≡◌, ◌≢◌, refl, sym, ap, ◌∙◌, Dict, Bool-cases, inl, inr,
}
use tai_mcp_ssh.Str.Path.{PurePath, path_text}
use tai_mcp_ssh.Errors.{Exc, ok, ok-injective, sftp_error, is_dead_error}
use tai_mcp_ssh.Audit.Value.{Value}
use tai_mcp_ssh.Process.{
  Env, Process, LocalReads, local_eof, local_broken, local_chunk, pure, throw, ask, modify,
  record_event, ◌>>=◌,
}
use tai_mcp_ssh.Process.Quiet.{Quiet-ask}
use tai_mcp_ssh.Ssh.Connection.{mark_dead, check_reply}
use tai_mcp_ssh.Ssh.Connection.Frame.{start_sftp-Quiet, check_reply-Quiet}
use tai_mcp_ssh.Ssh.Pool.Frame.{get_conn-Quiet}
use tai_mcp_ssh.Transfer.{
  TransferResult, dead_or_raise, send_chunk, send_chunks, upload, put_rejected, put_failed,
  put_file, permission_denied,
}
use tai_mcp_ssh.Transfer.Frame.{
  expanded-Quiet, resolved-Quiet, true_or_raise-Quiet, some_or_raise-Quiet,
}
use tai_mcp_ssh.Transfer.Returns.{
  Does, Stable, Does-then, Does-after, Does-catch, Does-pure, Does-throw, Does-modify,
}

-- the content of a local file, if every read of it succeeds up to its end
unfoldable pub local_content : LocalReads → Option (List ℕ)
local_content local_eof = some []
local_content local_broken = none
local_content (local_chunk [] rest) = some []
local_content (local_chunk (b ∷ bs) rest) = elim (local_content rest) [
  | none ↦ none
  | some content ↦ some (b ∷ bs ++ content)
]

-- the writes of chunks to a remote file
abbrev pub writes_of : ℕ → Text → List (List ℕ) → List (ℕ × Text × List ℕ)
writes_of id remote = map λ c. (id, remote, c)

-- the chunks that a loop over the reads sends
record Loop (id : ℕ) (remote : Text) (reads : LocalReads) (digest : List ℕ) (s : Process)
    (d : List ℕ) (t : Process) : Type 0 where
  pub chunks : List (List ℕ)
  pub written : t.uploads ≡ s.uploads ++ writes_of id remote chunks
  pub digested : d ≡ digest ++ flatten chunks
  pub all_read : local_content reads ≡ some (flatten chunks)

-- a chunk is sent
abbrev Appended : ℕ → Text → List ℕ → Process → Unit {0} → Process → Type 0
Appended id remote c s a t = t.uploads ≡ s.uploads ++ (id, remote, c) ∷ []

Appended-Stable : (id : ℕ) (remote : Text) (c : List ℕ) → Stable (Appended id remote c)
Appended-Stable id remote c s s' a t w h =
    h ∙ ap (λ u. u ++ (id, remote, c) ∷ []) (w.sends (λ x. x))

send_chunk-Does :
    (env : Env) (id : ℕ) (remote : Text) (c : List ℕ)
    → Does (Appended id remote c) (send_chunk env id remote c)
unfolding send_chunk
send_chunk-Does env id remote c = Does-after _ _ (Appended-Stable id remote c) (Quiet-ask _) (λ r.
    Does-after _ _ (Appended-Stable id remote c) (check_reply-Quiet r)
      (λ _. Does-modify _ (λ s. refl)))

send_chunks-Does :
    (env : Env) (id : ℕ) (remote : Text) (reads : LocalReads) (digest : List ℕ)
    → Does (Loop id remote reads digest) (send_chunks env id remote reads digest)
unfolding send_chunks local_content flatten
send_chunks-Does env id remote local_eof digest = Does-pure _ (λ s. record {
  chunks = [];
  written = sym (append-nil s.uploads);
  digested = sym (append-nil digest);
  all_read = refl;
})
send_chunks-Does env id remote local_broken digest = Does-throw _
send_chunks-Does env id remote (local_chunk [] rest) digest = Does-pure _ (λ s. record {
  chunks = [];
  written = sym (append-nil s.uploads);
  digested = sym (append-nil digest);
  all_read = refl;
})
send_chunks-Does env id remote (local_chunk (b ∷ bs) rest) digest =
    Does-then _ _ (send_chunk-Does env id remote (b ∷ bs)) (λ s a t d sent h.
      let l = (send_chunks-Does env id remote rest (digest ++ b ∷ bs)).at t d h in
      record {
        chunks = (b ∷ bs) ∷ l.chunks;
        written =
            l.written
            ∙ ap (λ u. u ++ writes_of id remote l.chunks) sent
            ∙ append_assoc s.uploads ((id, remote, b ∷ bs) ∷ []) (writes_of id remote l.chunks);
        digested = l.digested ∙ append_assoc digest (b ∷ bs) (flatten l.chunks);
        all_read = rw l.all_read refl;
      })

-- The whole content of a local file, as it was read, has been sent to the remote file.
pub record IsSent (env : Env) (remote local_path sha256 : Text) (s t : Process) : Type 0 where
  pub tick : ℕ
  pub local : PurePath
  pub named : local_path ≡ path_text local
  pub id : ℕ
  pub chunks : List (List ℕ)
  pub written : t.uploads ≡ s.uploads ++ writes_of id remote chunks
  pub all_read : local_content (env.local_reads tick local) ≡ some (flatten chunks)
  pub hashed : sha256 ≡ env.sha256 (flatten chunks)

IsSent-Stable :
    {A : Type 0} (env : Env) (remote : Text) (path sha : A → Text)
    → Stable {A = A} (λ s a t. IsSent env remote (path a) (sha a) s t)
IsSent-Stable env remote path sha s s' a t w h = record {
  tick = h.tick;
  local = h.local;
  named = h.named;
  id = h.id;
  chunks = h.chunks;
  written = h.written ∙ ap (λ u. u ++ writes_of h.id remote h.chunks) (w.sends (λ x. x));
  all_read = h.all_read;
  hashed = h.hashed;
}

-- the end of the `try`: what it gives, and that nothing more is sent
abbrev Ends : List ℕ → Process → List ℕ → Process → Type 0
Ends d s a t = (a ≡ d) × (t.uploads ≡ s.uploads)

close-Ends :
    (env : Env) (id : ℕ) (remote : Text) (d : List ℕ)
    → Does (Ends d) (ask (λ t. env.sftp_close t id remote) >>= λ c. check_reply c >>= λ _. pure d)
close-Ends env id remote d =
    Does-after _ _ stable (Quiet-ask _)
      (λ c. Does-after _ _ stable (check_reply-Quiet c) (λ _. Does-pure d (λ s. (refl, refl))))
  where
    stable : Stable (Ends d)
    stable s s' a t w h = (h.0, h.1 ∙ w.sends (λ x. x))

ask-reads :
    (env : Env) (local : PurePath)
    → Does
        (λ s a t. (a ≡ env.local_reads s.tick local) × (t.uploads ≡ s.uploads))
        (ask (λ t. env.local_reads t local))
unfolding ask
ask-reads env local = record { at = λ s a h. (sym (ok-injective h), refl) }

upload-Does :
    (env : Env) (id : ℕ) (local : PurePath) (remote : Text)
    → Does
        (λ s d t. IsSent env remote (path_text local) (env.sha256 d) s t)
        (upload env id local remote)
unfolding upload
upload-Does env id local remote = Does-after _ _ stable (start_sftp-Quiet env id) (λ _.
    Does-after _ _ stable (Quiet-ask _) (λ r. Does-after _ _ stable (check_reply-Quiet r) (λ _.
      Does-then _ _ (ask-reads env local) (λ s reads t d is h.
        (Does-then
            {T = λ u e v.
              s.uploads ≡ u.uploads → IsSent env remote (path_text local) (env.sha256 e) s v}
            _ _ (send_chunks-Does env id remote reads [])
            (λ u x v y loop g same.
              let e = (close-Ends env id remote x).at v y g in
              record {
                tick = s.tick;
                local = local;
                named = refl;
                id = id;
                chunks = loop.chunks;
                written =
                    e.1 ∙ loop.written ∙ ap (λ z. z ++ writes_of id remote loop.chunks) (sym same);
                all_read = rw (sym is.0) loop.all_read;
                hashed = ap env.sha256 (e.0 ∙ loop.digested);
              })).at
          t d h (sym is.1)))))
  where
    stable : Stable (λ s d t. IsSent env remote (path_text local) (env.sha256 d) s t)
    stable = IsSent-Stable env remote (λ d. path_text local) env.sha256

pub dead_or_raise-throws :
    {A : Type 0} (id : ℕ) (e : Exc) (t : Process) (a : A) → (dead_or_raise id e t).0 ≢ ok a
unfolding dead_or_raise mark_dead modify throw ◌>>=◌
dead_or_raise-throws id e t a = elim (Bool-cases (is_dead_error e)) [
  | inl h ↦ rw h (λ g. absurd (cc))
  | inr h ↦ rw h (λ g. absurd (cc))
]

put_failed-throws :
    (env : Env) (id : ℕ) (host local remote : Text) (reason : Option Text) (e : Exc) (t : Process)
    (a : List ℕ)
    → (put_failed env id host local remote reason e t).0 ≢ ok a
unfolding put_failed put_rejected ask record_event throw ◌>>=◌
put_failed-throws env id host local remote reason (sftp_error code) t a =
    elim (Bool-cases (code == permission_denied)) [
      | inl h ↦ rw h (λ g. absurd (cc))
      | inr h ↦ rw h (λ g. absurd (cc))
    ]
put_failed-throws env id host local remote reason e t a = dead_or_raise-throws id _ t a

recorded-Sent :
    (env : Env) (tool remote : Text) (host : Option Text) (fields : Dict Value) (r : TransferResult)
    → Does
        (λ s a t. (a ≡ r) × (t.uploads ≡ s.uploads))
        (record_event tool host fields >>= λ _. pure r)
unfolding record_event pure ◌>>=◌
recorded-Sent env tool remote host fields r = record { at = λ s a h. (sym (ok-injective h), refl) }

-- Where `put` returns, the local file whose path it returns was read to its end without an error, and
-- its whole content, chunk by chunk and nothing else, was written to the remote path of the call, on
-- one connection. The SHA-256 that is returned is that of this content.
pub put_file-IsSent :
    (env : Env) (host local_path remote : Text) (reason : Option Text) (s : Process)
    (r : TransferResult)
    → (put_file env host local_path remote reason s).0 ≡ ok r
    → IsSent env remote r.local_path r.sha256 s (put_file env host local_path remote reason s).1
unfolding put_file
put_file-IsSent env host local_path remote reason s r h =
    (Does-after _ _ stable (expanded-Quiet env _) (λ p.
        Does-after _ _ stable (resolved-Quiet env p) (λ local.
          Does-after _ _ stable (Quiet-ask _) (λ found.
            Does-after _ _ stable (true_or_raise-Quiet _ found refl) (λ _.
              Does-after _ _ stable (Quiet-ask _) (λ answer.
                Does-after _ _ stable (some_or_raise-Quiet _ answer refl) (λ size.
                  Does-after _ _ stable (get_conn-Quiet env host) (λ id.
                    Does-then _ _
                      (Does-catch _ _ (upload-Does env id local remote)
                        (put_failed-throws env id host _ remote reason))
                      (λ s₁ d t₁ b sent g.
                        let e = (recorded-Sent env _ remote _ _ _).at t₁ b g in
                        record {
                          tick = sent.tick;
                          local = sent.local;
                          named = ap (λ x. x.local_path) e.0 ∙ sent.named;
                          id = sent.id;
                          chunks = sent.chunks;
                          written = e.1 ∙ sent.written;
                          all_read = sent.all_read;
                          hashed = ap (λ x. x.sha256) e.0 ∙ sent.hashed;
                        }))))))))).at
      s r h
  where
    stable : Stable {A = TransferResult} (λ s a t. IsSent env remote a.local_path a.sha256 s t)
    stable = IsSent-Stable env remote (λ a. a.local_path) (λ a. a.sha256)
