-- ===== src/Server/Reload.antt =====
-- `reload_hosts_from_disk` of server.py, in the `hosts` tool.
use tai_mcp_ssh.Prelude.{
  ℕ, suc, length, codes, Bool, true, false, not, ◌&&◌, ◌||◌, Option, none, some, List, [], ◌∷◌,
  ◌++◌, Text, text_eq_iff, member, select, keys, Dict, get, get-remove, is_some, map, ◌≡◌, refl,
  ◌∙◌, ap, arith, if◌then◌else◌,
}
use tai_mcp_ssh.Errors.{Exc, ok, raise}
use tai_mcp_ssh.Audit.Value.{text}
use tai_mcp_ssh.Config.Entry.{Host}
use tai_mcp_ssh.Config.File.{Config}
use tai_mcp_ssh.Process.{Env, Process, ask, lift, gets, modify, pure, catch, record_event, ◌>>=◌}
use tai_mcp_ssh.Ssh.Pool.{evict, evict_all, update_hosts}
use tai_mcp_ssh.Services.{
  same_host, differs, keys_without, keys_changed, read_config, reload_hosts_from_disk,
}
use tai_mcp_ssh.Server.{host_views, host_view, reload_and_audit, reload_counts, hosts_tool}

-- a host that is no longer listed, or is listed otherwise
abbrev pub is_stale : Env → Option Host → Option Host → Bool
is_stale env none g = false
is_stale env (some h) none = true
is_stale env (some h) (some g) = not (same_host env h g)

member-append : (k : Text) (xs ys : List Text) → member k (xs ++ ys) ≡ (member k xs || member k ys)
unfolding member
member-append k [] ys = refl
member-append k (x ∷ xs) ys = ground (arith, member-append k xs ys)

member-select :
    (k : Text) (p : Text → Bool) (ks : List Text) → member k (select p ks) ≡ (member k ks && p k)
unfolding member
member-select k p [] = refl
member-select k p (j ∷ ks) = ground (arith, member-select k p ks, text_eq_iff j k)

module _ {V : Type 0} where
  member-keys : (k : Text) (d : Dict V) → member k (keys d) ≡ is_some (get k d)
  unfolding member get
  member-keys k [] = refl
  member-keys k ((j, v) ∷ d) = ground (arith, member-keys k d)

evicted_hosts : Env → Dict Host → Dict Host → List Text
evicted_hosts env old new = keys_without old new ++ keys_changed env old new

member-evicted_hosts :
    (env : Env) (k : Text) (old new : Dict Host)
    → member k (evicted_hosts env old new) ≡ is_stale env (get k old) (get k new)
unfolding evicted_hosts keys_without keys_changed differs
member-evicted_hosts env k old new =
    rw
      (
        member-append k (select (λ j. not (member j (keys new))) (keys old))
            (select (λ j. differs env (get j old) (get j new)) (keys old)),
        member-select k (λ j. not (member j (keys new))) (keys old),
        member-select k (λ j. differs env (get j old) (get j new)) (keys old),
        member-keys k old,
        member-keys k new,
      )
      (by_entries (get k old) (get k new))
  where
    by_entries :
        (o n : Option Host)
        → ((is_some o && not (is_some n)) || (is_some o && differs env o n)) ≡ is_stale env o n
    by_entries none n = refl
    by_entries (some h) none = refl
    by_entries (some h) (some g) = refl

-- `t` is `s` without the connections of the aliases
record IsWithout (aliases : List Text) (s t : Process) : Type 0 where
  pub same_config : t.config ≡ s.config
  pub same_hosts : t.hosts ≡ s.hosts
  pub same_idle : t.idle_timeout_hours ≡ s.idle_timeout_hours
  pub connections :
      (k : Text) → get k t.connections ≡ (if member k aliases then none else get k s.connections)

evict_all-IsWithout :
    (aliases : List Text) (s : Process)
    → ((evict_all aliases s).0 ≡ ok tt) × IsWithout aliases s (evict_all aliases s).1
unfolding evict_all evict modify pure ◌>>=◌ member
evict_all-IsWithout [] s = (
  refl,
  record { same_config = refl; same_hosts = refl; same_idle = refl; connections = λ k. refl },
)
evict_all-IsWithout (a ∷ aliases) s =
    let rest = evict_all-IsWithout aliases (evict a s).1 in
    (
      rest.0,
      record {
        same_config = rest.1.same_config;
        same_hosts = rest.1.same_hosts;
        same_idle = rest.1.same_idle;
        connections = λ k.
            let r = rest.1.connections k in
            ground (arith, r, get-remove a k s.connections, text_eq_iff a k);
      },
    )

module _ (env : Env) (s : Process) (new : Config) where
  installed : Process
  installed = record s {
    tick = suc s.tick;
    config = new;
    hosts = new.hosts;
    idle_timeout_hours = new.idle_timeout_hours;
  }

  counts : ℕ × ℕ × ℕ
  counts = (
    length (keys_without new.hosts s.config.hosts),
    length (keys_without s.config.hosts new.hosts),
    length (keys_changed env s.config.hosts new.hosts),
  )

  reload-installs :
      read_config env (env.hosts_file s.tick) ≡ ok new
      → reload_hosts_from_disk env s
        ≡ (ok counts, (evict_all (evicted_hosts env s.config.hosts new.hosts) installed).1)
  unfolding reload_hosts_from_disk update_hosts ask lift gets modify pure ◌>>=◌ installed counts
      evicted_hosts
  reload-installs e =
      rw
        (
          e,
          (evict_all-IsWithout
              (keys_without s.config.hosts new.hosts ++ keys_changed env s.config.hosts new.hosts)
              (record s {
                tick = suc s.tick;
                config = new;
                hosts = new.hosts;
                idle_timeout_hours = new.idle_timeout_hours;
              })).0,
        )
        refl

-- Where the file of hosts can be read and is a configuration, the tool `hosts` installs it: it
-- becomes that of the services, its hosts are the pool's allowlist, and its idle timeout the pool's. A
-- connection stays in the pool's cache if and only if its alias was not listed before, or is listed
-- again with an equal host: those of removed and of changed hosts are evicted.
pub hosts_tool-reloads :
    (env : Env) (s : Process) (new : Config)
    → read_config env (env.hosts_file s.tick) ≡ ok new
    → let t = (hosts_tool env s).1 in
      ((hosts_tool env s).0 ≡ ok (host_views (map host_view new.hosts)))
      × (t.config ≡ new)
      × (t.hosts ≡ new.hosts)
      × (t.idle_timeout_hours ≡ new.idle_timeout_hours)
      × ((alias : Text)
          → get alias t.connections ≡ (
              if is_stale env (get alias s.config.hosts) (get alias new.hosts)
              then none
              else get alias s.connections))
unfolding hosts_tool reload_and_audit gets pure catch record_event ◌>>=◌ installed
hosts_tool-reloads env s new e =
    let stale = evicted_hosts env s.config.hosts new.hosts in
    let h = (evict_all-IsWithout stale (installed env s new)).1 in
    rw (reload-installs env s new e) (
      rw h.same_config refl,
      h.same_config,
      h.same_hosts,
      h.same_idle,
      λ alias.
          h.connections alias
          ∙ ap (λ b. if b then none else get alias s.connections)
              (member-evicted_hosts env alias s.config.hosts new.hosts),
    )

-- Where the file of hosts cannot be read or is refused, the tool `hosts` does not fail: it returns
-- the hosts of the configuration in memory, leaves that, the allowlist, the idle timeout and the
-- cached connections as they were, and its record of the reload says `error`, with counts of zero.
pub hosts_tool-keeps :
    (env : Env) (s : Process) (x : Exc)
    → read_config env (env.hosts_file s.tick) ≡ raise x
    → let t = (hosts_tool env s).1 in
      ((hosts_tool env s).0 ≡ ok (host_views (map host_view s.config.hosts)))
      × (t.config ≡ s.config)
      × (t.hosts ≡ s.hosts)
      × (t.idle_timeout_hours ≡ s.idle_timeout_hours)
      × (t.connections ≡ s.connections)
      × (t.audit
          ≡ s.audit
            ++ (record {
              tool = codes "_hosts_reload";
              host = none;
              fields =
                  reload_counts (codes "error") (0, 0, 0)
                  ++ (codes "error", text (env.error_text (suc s.tick))) ∷ [];
            })
              ∷ [])
unfolding hosts_tool reload_and_audit reload_hosts_from_disk ask lift gets pure catch record_event
    ◌>>=◌
hosts_tool-keeps env s x e = rw e (refl, refl, refl, refl, refl, refl)
