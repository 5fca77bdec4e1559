-- ===== src/Transfer/Confined.antt =====
-- Where `TransferManager.get` of transfer.py writes.
use tai_mcp_ssh.Prelude.{
  ℕ, Bool, true, false, not, ◌&&◌, Option, none, some, [], ◌∷◌, ◌++◌, Text, codes, ◌≡◌, refl,
  Bool-cases, inl, inr, Dict, if◌then◌else◌,
}
use tai_mcp_ssh.Str.Path.{PurePath, path_text, is_relative_to}
use tai_mcp_ssh.Errors.{Exc, Result, pending, ok, raise, os_error, transfer_denied, sftp_error}
use tai_mcp_ssh.Audit.Value.{Value, text, optional_text}
use tai_mcp_ssh.Process.{Env, Process, M, throw, ask, record_event, pure, ◌>>=◌}
use tai_mcp_ssh.Process.Quiet.{
  Place, local_file, remote_files, Nowhere, Writes, Writes-same, Writes-then, Quiet, Quiet-wider,
  Quiet-ask,
}
use tai_mcp_ssh.Process.Keeps.{
  Keeps, Gives, Post, Keeps-throw, Keeps-pure, Keeps-bind, Keeps-if, Keeps-catch, Keeps-then,
}
use tai_mcp_ssh.Paths.{downloads_dir}
use tai_mcp_ssh.Ssh.Pool.Frame.{get_conn-Quiet}
use tai_mcp_ssh.Ssh.Connection.Frame.{mark_dead-Quiet}
use tai_mcp_ssh.Transfer.{
  resolved, some_or_raise, dead_or_raise, get_rejected, get_failed, fetch, destination, get_file,
  download,
}
use tai_mcp_ssh.Transfer.Frame.{
  ToFile, destination-Quiet, resolved-Quiet, true_or_raise-Quiet, download-Quiet,
}

-- what a path resolves to at some time
abbrev ResolvesTo : Env → PurePath → PurePath → Type 0
ResolvesTo env p q = (t : ℕ) × (env.resolve t p ≡ some q)

-- a result that an action has at some time
abbrev Returns : {A : Type 0} → M A → A → Type 0
Returns m a = (t : Process) × ((m t).0 ≡ ok a)

-- the local files at what a destination resolves to, below what the root of downloads resolves to
abbrev pub Inside : Env → M PurePath → Place → Type 0
Inside env asked (local_file k) =
    (root : PurePath) × (dest : PurePath) × (d : PurePath) × Returns asked d
    × ResolvesTo env d dest
    × ResolvesTo env (downloads_dir env none) root
    × (k ≡ path_text dest)
    × (is_relative_to dest root ≡ true)
Inside env asked remote_files = ⊥

module _ {W : Place → Type 0} (s : Process) where
  Keeps-Writes : {A : Type 0} {m : M A} → Quiet W m → Keeps (Writes W s) m
  Keeps-Writes quiet = record { at = λ t w. Writes-then w (quiet.writes t) }

  Keeps-Quiet : {A : Type 0} {m : M A} → Quiet Nowhere m → Keeps (Writes W s) m
  Keeps-Quiet quiet = Keeps-Writes (Quiet-wider quiet)

  record_event-Keeps :
      (tool : Text) (host : Option Text) (fields : Dict Value)
      → Keeps (Writes W s) (record_event tool host fields)
  unfolding record_event
  record_event-Keeps tool host fields = record { at = λ t w. Writes-then w (Writes-same refl refl) }

  get_rejected-Keeps :
      {A : Type 0} (host local remote : Text) (reason : Option Text) (error : Text)
      → Keeps (Writes W s) (get_rejected {A = A} host local remote reason error)
  unfolding get_rejected
  get_rejected-Keeps host local remote reason error =
      Keeps-bind _ _ (record_event-Keeps _ _ _) (λ _. Keeps-throw _)

  dead_or_raise-Keeps :
      {A : Type 0} (id : ℕ) (e : Exc) → Keeps (Writes W s) (dead_or_raise {A = A} id e)
  unfolding dead_or_raise
  dead_or_raise-Keeps id e =
      Keeps-if _ _ _ (Keeps-bind _ _ (Keeps-Quiet (mark_dead-Quiet id)) (λ _. Keeps-throw _))
        (Keeps-throw e)

Post-some :
    (env : Env) (p : PurePath) (t : ℕ) (o : Option PurePath) (u : Process)
    → env.resolve t p ≡ o
    → Post (ResolvesTo env p) (some_or_raise os_error o u).0
unfolding some_or_raise throw pure
Post-some env p t none u e = tt
Post-some env p t (some root) u e = (t, e)

Post-Returns :
    {A : Type 0} (m : M A) (t : Process) (r : Result A) → (m t).0 ≡ r → Post (Returns m) r
Post-Returns m t (ok a) e = (t, e)
Post-Returns m t (raise x) e = tt
Post-Returns m t pending e = tt

module _ {W : Place → Type 0} (env : Env) (s : Process) where
  get_failed-Keeps :
      (id : ℕ) (host local remote : Text) (reason : Option Text) (e : Exc)
      → Keeps (Writes W s) (get_failed env id host local remote reason e)
  unfolding get_failed
  get_failed-Keeps id host local remote reason (sftp_error code) =
      Keeps-if _ _ _
        (Keeps-bind _ _ (Keeps-Quiet s (Quiet-ask _))
          (λ error. get_rejected-Keeps s host local remote reason error))
        (Keeps-throw _)
  get_failed-Keeps id host local remote reason e = dead_or_raise-Keeps s id _

  fetch-Keeps :
      (host remote : Text) (reason : Option Text) (dest : PurePath) (outside : Bool)
      → ((p : Place) → ToFile dest p → W p)
      → Keeps (Writes W s) (fetch env host remote reason dest outside)
  unfolding fetch
  fetch-Keeps host remote reason dest outside allowed =
      Keeps-bind _ _ (Keeps-Quiet s (Quiet-ask _)) (λ made.
        Keeps-bind _ _ (Keeps-Quiet s (true_or_raise-Quiet _ made refl)) (λ _.
          Keeps-bind _ _ (Keeps-Quiet s (get_conn-Quiet env host)) (λ id.
            Keeps-bind _ _
              (Keeps-catch _ _ (downloads id) (get_failed-Keeps id host _ remote reason))
              (λ digest. Keeps-bind _ _ (record_event-Keeps s _ _ _) (λ _. Keeps-pure _)))))
    where
      downloads : (id : ℕ) → Keeps (Writes W s) (download env id dest remote)
      downloads id = record {
        at = λ t w.
            let d = (download-Quiet env id dest remote).writes t in
            Writes-then w (record {
              files = λ k h. d.files k (λ e. h (allowed (local_file k) e));
              sends = λ h. d.sends (λ x. x);
            });
      }

  Returns-Gives : {A : Type 0} (m : M A) → Keeps (Writes W s) m → Gives (Writes W s) (Returns m) m
  Returns-Gives m kept = record { at = λ t w. (kept.at t w, Post-Returns m t (m t).0 refl) }

  resolved-Gives : (p : PurePath) → Gives (Writes W s) (ResolvesTo env p) (resolved env p)
  unfolding resolved ask ◌>>=◌
  resolved-Gives p = record {
    at = λ t w. ((Keeps-Quiet s (resolved-Quiet env p)).at t w, Post-some env p t.tick _ _ refl);
  }

-- Without `allow_outside`, whatever the destination, the answers of the local file system and of the
-- host, and however the call ends, `get` writes a local file only at a path that the destination asked
-- for resolves to, where that path lies, part by part, below one that the root of the downloads
-- resolves to, each as the file system resolves it at some time: the content of every other file is
-- what it was. No remote file is written.
pub get_file-IsConfined :
    (env : Env) (host remote : Text) (local_path reason : Option Text) (s : Process)
    → Writes
        (Inside env (destination env host remote local_path))
        s
        (get_file env host remote local_path reason false s).1
unfolding get_file
get_file-IsConfined env host remote local_path reason s =
    (Keeps-then _ _
        (Returns-Gives env s _ (Keeps-Quiet s (destination-Quiet env host remote local_path)))
        (λ d asked. Keeps-then _ _ (resolved-Gives env s d) (λ dest is_dest.
          Keeps-then _ _ (resolved-Gives env s (downloads_dir env none))
            (λ root is_root. allowed d dest root asked is_dest is_root)))).at
      s (Writes-same refl refl)
  where
    allowed :
        (d dest root : PurePath)
        → Returns (destination env host remote local_path) d
        → ResolvesTo env d dest
        → ResolvesTo env (downloads_dir env none) root
        → Keeps (Writes (Inside env (destination env host remote local_path)) s) (
            if not (is_relative_to dest root) && not false
            then get_rejected host
                (path_text dest)
                remote
                reason
                (codes "destination outside downloads dir")
            else fetch env host remote reason dest (not (is_relative_to dest root)))
    allowed d dest root asked is_dest is_root = elim (Bool-cases (is_relative_to dest root)) [
      | inl e ↦ rw e (fetch-Keeps env s host remote reason dest false (λ p. below p e))
      | inr e ↦ rw e (get_rejected-Keeps s host _ remote reason _)
    ]
      where
        below :
            (p : Place)
            → is_relative_to dest root ≡ true
            → ToFile dest p
            → Inside env (destination env host remote local_path) p
        below (local_file k) e same = (root, dest, d, asked, is_dest, is_root, same, e)
        below remote_files e nothing = absurd nothing

-- Where the destination resolves to a path that is not below the root that the downloads directory
-- resolves to, `get` without `allow_outside` raises a denial that is marked as audited, after one
-- record of the rejection, which names the resolved destination. Nothing else changes once the two
-- paths are resolved: no connection is looked up or opened, and no file is written.
pub get_file-denies :
    (env : Env) (host remote : Text) (local_path reason : Option Text) (s t u v : Process)
    (d dest root : PurePath)
    → destination env host remote local_path s ≡ (ok d, t)
    → resolved env d t ≡ (ok dest, u)
    → resolved env (downloads_dir env none) u ≡ (ok root, v)
    → is_relative_to dest root ≡ false
    → get_file env host remote local_path reason false s ≡ (
      raise (transfer_denied true),
      record v {
        audit =
            v.audit
            ++ (record {
              tool = codes "get";
              host = some host;
              fields =
                  (codes "remote_path", text remote)
                  ∷ (codes "local_path", text (path_text dest))
                  ∷ (codes "reason", optional_text reason)
                  ∷ (codes "status", text (codes "rejected"))
                  ∷ (codes "error", text (codes "destination outside downloads dir"))
                  ∷ [];
            })
              ∷ [];
      },
    )
unfolding get_file get_rejected record_event throw ◌>>=◌
get_file-denies env host remote local_path reason s t u v d dest root e₁ e₂ e₃ outside =
    rw (e₁, e₂, e₃, outside) refl
