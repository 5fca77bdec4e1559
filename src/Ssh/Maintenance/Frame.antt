-- ===== src/Ssh/Maintenance/Frame.antt =====
-- `_maintain`, `close_all` and `update_hosts` of ssh.py and the session registry.
use tai_mcp_ssh.Prelude.{ℕ, Option, List, [], ◌∷◌, Text, Dict, refl, codes, ◌||◌}
use tai_mcp_ssh.Str.Chars.{is_part}
use tai_mcp_ssh.Ssh.Connection.{ok_status, as_str}
use tai_mcp_ssh.Prelude.Int.{ℤ}
use tai_mcp_ssh.Config.Entry.{Host}
use tai_mcp_ssh.Process.{Env, Completed}
use tai_mcp_ssh.Process.Quiet.{
  Nowhere, Writes-same, Quiet, Quiet-bind, Quiet-throw, Quiet-pure, Quiet-gets, Quiet-if,
  Quiet-catch, Quiet-modify, Quiet-record_event,
}
use tai_mcp_ssh.Ssh.Connection.Frame.{run-Quiet}
use tai_mcp_ssh.Ssh.Pool.{evict_all, update_hosts, close_all}
use tai_mcp_ssh.Ssh.Pool.Frame.{alias_of-Quiet, evict-Quiet}
use tai_mcp_ssh.Ssh.Maintenance.{
  listing_of, kill_candidates, reap_attempt, reap_idle_sessions, sweep_attempt, sweep_remote_logs,
  maintain,
}

listing_of-Quiet : (c : Completed) → Quiet Nowhere (listing_of c)
unfolding listing_of
listing_of-Quiet c = Quiet-if (ok_status c.status) _ _ (Quiet-pure _) (
    Quiet-if
      (is_part (codes "no server running") (as_str c.stderr)
        || is_part (codes "error connecting") (as_str c.stderr))
      _ _ (Quiet-pure _) (Quiet-throw _ refl))

kill_candidates-Quiet :
    (env : Env) (id : ℕ) (cs : Dict (List ℤ)) → Quiet Nowhere (kill_candidates env id cs)
unfolding kill_candidates
kill_candidates-Quiet env id [] = Quiet-pure _
kill_candidates-Quiet env id (c ∷ cs) = Quiet-bind _ _ (run-Quiet env id _ _ _) (λ _. Quiet-pure _)

reap-Quiet : (env : Env) (id hours : ℕ) → Quiet Nowhere (reap_idle_sessions env id hours)
unfolding reap_idle_sessions reap_attempt
reap-Quiet env id hours = Quiet-if _ _ _ (Quiet-pure _) (
    Quiet-catch _ _
      (Quiet-bind _ _ (run-Quiet env id _ _ _) (λ c. Quiet-bind _ _ (listing_of-Quiet c) (λ listing.
        Quiet-bind _ _ (kill_candidates-Quiet env id _)
          (λ killed. Quiet-bind _ _ (alias_of-Quiet id) (λ _. Quiet-record_event _ _ _ refl)))))
      (λ e _. Quiet-bind _ _ (alias_of-Quiet id) (λ _. Quiet-record_event _ _ _ refl)))

sweep-Quiet : (env : Env) (id : ℕ) (days : ℤ) → Quiet Nowhere (sweep_remote_logs env id days)
unfolding sweep_remote_logs sweep_attempt
sweep-Quiet env id days =
    Quiet-catch _ _
      (Quiet-bind _ _ (run-Quiet env id _ _ _)
        (λ c. Quiet-bind _ _ (alias_of-Quiet id) (λ _. Quiet-record_event _ _ _ refl)))
      (λ e _. Quiet-bind _ _ (alias_of-Quiet id) (λ _. Quiet-record_event _ _ _ refl))

pub maintain-Quiet : (env : Env) (id : ℕ) → Quiet Nowhere (maintain env id)
unfolding maintain
maintain-Quiet env id = Quiet-bind _ _ (Quiet-gets _) (λ days.
    Quiet-bind _ _ (sweep-Quiet env id days)
      (λ _. Quiet-bind _ _ (Quiet-gets _) (λ hours. reap-Quiet env id hours)))

pub close_all-Quiet : Quiet Nowhere close_all
unfolding close_all
close_all-Quiet = Quiet-modify _ (λ s. (refl, refl, refl)) (λ s. Writes-same refl refl)

evict_all-Quiet : (aliases : List Text) → Quiet Nowhere (evict_all aliases)
unfolding evict_all
evict_all-Quiet [] = Quiet-pure tt
evict_all-Quiet (a ∷ rest) = Quiet-bind _ _ (evict-Quiet a) (λ _. evict_all-Quiet rest)

pub update_hosts-Quiet :
    (hosts : Dict Host) (evicted : List Text) (idle : Option ℕ)
    → Quiet Nowhere (update_hosts hosts evicted idle)
unfolding update_hosts
update_hosts-Quiet hosts evicted idle =
    Quiet-bind _ _ (Quiet-modify _ (λ s. (refl, refl, refl)) (λ s. Writes-same refl refl))
      (λ _. evict_all-Quiet evicted)
