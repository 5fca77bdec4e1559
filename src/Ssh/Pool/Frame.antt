-- ===== src/Ssh/Pool/Frame.antt =====
-- `ConnectionPool.get` of ssh.py and the session registry.
use tai_mcp_ssh.Prelude.{
  Bool, true, false, Option, none, some, Text, ◌≡◌, refl, ℕ, get, if◌then◌else◌,
}
use tai_mcp_ssh.Process.{Process, Env, Completed, update_conn}
use tai_mcp_ssh.Process.Quiet.{
  Nowhere, Writes, Writes-same, Quiet, Quiet-bind, Quiet-throw, Quiet-pure, Quiet-gets, Quiet-if,
  Quiet-catch, Quiet-ask, Quiet-modify, Quiet-record_event,
}
use tai_mcp_ssh.Ssh.Connection.Frame.{run-Quiet}
use tai_mcp_ssh.Ssh.Open.Frame.{open_conn-Quiet}
use tai_mcp_ssh.Ssh.Pool.{
  evict, check_tmux, check_home, alias_of, ensure_ready, too_soon, schedule_maintenance, alive,
  cached_or_open, make_ready, obtain, get_conn,
}

pub evict-Quiet : (alias : Text) → Quiet Nowhere (evict alias)
unfolding evict
evict-Quiet alias = Quiet-modify _ (λ s. (refl, refl, refl)) (λ s. Writes-same refl refl)

check_tmux-Quiet : (alias : Text) (id : ℕ) (c : Completed) → Quiet Nowhere (check_tmux alias id c)
unfolding check_tmux update_conn
check_tmux-Quiet alias id c =
    Quiet-if _ _ _ (Quiet-bind _ _ (Quiet-record_event _ _ _ refl) (λ _. Quiet-throw _ refl)) (
      Quiet-bind _ _ (Quiet-modify _ (λ s. (refl, refl, refl)) (λ s. Writes-same refl refl))
        (λ _. Quiet-record_event _ _ _ refl))

check_home-Quiet : (id : ℕ) (c : Completed) → Quiet Nowhere (check_home id c)
unfolding check_home update_conn
check_home-Quiet id c =
    Quiet-if _ _ _ (Quiet-throw _ refl)
      (Quiet-modify _ (λ s. (refl, refl, refl)) (λ s. Writes-same refl refl))

pub alias_of-Quiet : (id : ℕ) → Quiet Nowhere (alias_of id)
unfolding alias_of
alias_of-Quiet id = Quiet-gets _

ensure_ready-Quiet : (env : Env) (id : ℕ) → Quiet Nowhere (ensure_ready env id)
unfolding ensure_ready
ensure_ready-Quiet env id = Quiet-bind _ _ (alias_of-Quiet id) (λ alias.
    Quiet-bind _ _ (run-Quiet env id _ _ _) (λ c. Quiet-bind _ _ (check_tmux-Quiet alias id c) (λ _.
      Quiet-bind _ _ (run-Quiet env id _ _ _) (λ h.
        Quiet-bind _ _ (check_home-Quiet id h)
          (λ _. Quiet-bind _ _ (run-Quiet env id _ _ _) (λ _. Quiet-record_event _ _ _ refl))))))

schedule-Quiet : (env : Env) (id : ℕ) → Quiet Nowhere (schedule_maintenance env id)
unfolding schedule_maintenance
schedule-Quiet env id = Quiet-bind _ _ (alias_of-Quiet id) (λ alias.
    Quiet-bind _ _ (Quiet-ask _) (λ now.
      Quiet-modify _
        (λ s. unchanged (too_soon now (get alias s.last_maintenance)) s _ (refl, refl, refl))
        (λ s. written (too_soon now (get alias s.last_maintenance)) s _ (Writes-same refl refl))))
  where
    unchanged :
        (b : Bool) (s t : Process)
        → (t.sessions ≡ s.sessions) × (t.tick ≡ s.tick) × (t.audit ≡ s.audit)
        → ((if b then s else t).sessions ≡ s.sessions)
          × ((if b then s else t).tick ≡ s.tick)
          × ((if b then s else t).audit ≡ s.audit)
    unchanged true s t e = (refl, refl, refl)
    unchanged false s t e = e

    written :
        (b : Bool) (s t : Process) → Writes Nowhere s t → Writes Nowhere s (if b then s else t)
    written true s t w = Writes-same refl refl
    written false s t w = w

alive-Quiet : (alias : Text) (o : Option ℕ) → Quiet Nowhere (alive alias o)
unfolding alive
alive-Quiet alias none = Quiet-pure none
alive-Quiet alias (some id) = Quiet-bind _ _ (Quiet-gets _) (λ dead.
    Quiet-if _ _ _ (Quiet-bind _ _ (evict-Quiet alias) (λ _. Quiet-pure none)) (Quiet-pure _))

cached_or_open-Quiet :
    (env : Env) (alias : Text) (o : Option ℕ) → Quiet Nowhere (cached_or_open env alias o)
unfolding cached_or_open
cached_or_open-Quiet env alias (some id) = Quiet-pure id
cached_or_open-Quiet env alias none = Quiet-bind _ _ (open_conn-Quiet env alias) (λ id.
    Quiet-bind _ _ (Quiet-modify _ (λ s. (refl, refl, refl)) (λ s. Writes-same refl refl))
      (λ _. Quiet-pure id))

make_ready-Quiet :
    (env : Env) (alias : Text) (id : ℕ) (b : Bool) → Quiet Nowhere (make_ready env alias id b)
unfolding make_ready
make_ready-Quiet env alias id true = Quiet-pure tt
make_ready-Quiet env alias id false =
    Quiet-bind _ _
      (Quiet-catch _ _ (ensure_ready-Quiet env id)
        (λ e h. Quiet-bind _ _ (evict-Quiet alias) (λ _. Quiet-throw e h)))
      (λ _. Quiet-modify _ (λ s. (refl, refl, refl)) (λ s. Writes-same refl refl))

pub get_conn-Quiet : (env : Env) (alias : Text) → Quiet Nowhere (get_conn env alias)
unfolding get_conn obtain
get_conn-Quiet env alias = Quiet-bind _ _ (Quiet-gets _) (λ allowed.
    Quiet-if _ _ _
      (Quiet-bind _ _ (Quiet-gets _) (λ cached. Quiet-bind _ _ (alive-Quiet alias cached) (λ live.
        Quiet-bind _ _ (cached_or_open-Quiet env alias live) (λ id.
          Quiet-bind _ _ (Quiet-gets _) (λ done.
            Quiet-bind _ _ (make_ready-Quiet env alias id done)
              (λ _. Quiet-bind _ _ (schedule-Quiet env id) (λ _. Quiet-pure id)))))))
      (Quiet-throw _ refl))
