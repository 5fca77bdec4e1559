-- ===== src/Config/File/Saved.antt =====
-- What `save_host` writes, read by `load_config`.
use tai_mcp_ssh.Prelude.{
  true, Option, none, some, ◌≡◌, refl, ◌∙◌, sym, arith, Text, codes, text_eq, text_eq_iff, any,
  Bool-cases, inl, inr,
}
use tai_mcp_ssh.Errors.{Result, ok, raise, config_error, type_error, ◌>>=◌, >>=-eq-ok, ok-injective}
use tai_mcp_ssh.Config.Node.{Node, Table, table, end, entry, get_key, put_key, get_key-put_key}
use tai_mcp_ssh.Config.Forbidden.{
  is_forbidden, reject_forbidden_keys, all_keys, table_keys, any-append, reject_forbidden_keys_lem,
}
use tai_mcp_ssh.Config.Entry.{Host}
use tai_mcp_ssh.Config.File.{
  Toml, config_of, load_config, set_host, parsed, read_raw, saved_table, save_host,
}

key_is_seen :
    (k : Text) (v : Node) (t : Table)
    → get_key k t ≡ some v
    → is_forbidden k ≡ true
    → any is_forbidden (table_keys t) ≡ true
unfolding get_key table_keys
key_is_seen k v end h f = absurd (ground (arith, h))
key_is_seen k v (entry j w t) h f = elim (Bool-cases (text_eq j k)) [
  | inl e ↦ rw ((text_eq_iff j k).0 e, f) refl
  | inr e ↦
      ground
        (arith, any-append (all_keys w) (table_keys t), key_is_seen k v t (ground (arith, e, h)) f)
]

value_is_seen :
    (k : Text) (v : Node) (t : Table)
    → get_key k t ≡ some v
    → any is_forbidden (all_keys v) ≡ true
    → any is_forbidden (table_keys t) ≡ true
unfolding get_key table_keys
value_is_seen k v end h f = absurd (ground (arith, h))
value_is_seen k v (entry j w t) h f = elim (Bool-cases (text_eq j k)) [
  | inl e ↦
      let same : some w ≡ some v = ground (arith, e, h) in
      let here : any is_forbidden (all_keys w) ≡ true = cc in
      ground (arith, here, any-append (all_keys w) (table_keys t))
  | inr e ↦
      ground (
        arith,
        any-append (all_keys w) (table_keys t),
        value_is_seen k v t (ground (arith, e, h)) f,
      )
]

get_key-put_same : (k : Text) (v : Node) (t : Table) → get_key k (put_key k v t) ≡ some v
get_key-put_same k v t = rw (get_key-put_key k k v t, (text_eq_iff k k).1 refl) refl

set_in :
    (alias : Text) (e hosts raw : Table)
    → is_forbidden alias ≡ true
    → any is_forbidden
        (table_keys (put_key (codes "hosts") (table (put_key alias (table e) hosts)) raw))
      ≡ true
unfolding all_keys
set_in alias e hosts raw f =
    value_is_seen (codes "hosts") (table (put_key alias (table e) hosts)) _
      (get_key-put_same (codes "hosts") (table (put_key alias (table e) hosts)) raw)
      (key_is_seen alias (table e) (put_key alias (table e) hosts)
        (get_key-put_same alias (table e) hosts) f)

set_host-is_seen :
    (alias : Text) (e raw raw' : Table)
    → is_forbidden alias ≡ true
    → set_host alias e raw ≡ ok raw'
    → any is_forbidden (table_keys raw') ≡ true
unfolding set_host put_key
set_host-is_seen alias e raw raw' f = by_hosts (get_key (codes "hosts") raw)
  where
    by_hosts :
        (o : Option Node)
        → (elim o as (λ _. Result Table) [
          | none ↦ ok (put_key (codes "hosts") (table (entry alias (table e) end)) raw)
          | some (table hosts) ↦
              ok (put_key (codes "hosts") (table (put_key alias (table e) hosts)) raw)
          | some _ ↦ raise type_error
        ])
          ≡ ok raw'
        → any is_forbidden (table_keys raw') ≡ true
    by_hosts none h = rw (sym (ok-injective h)) (set_in alias e end raw f)
    by_hosts (some (table hosts)) h = rw (sym (ok-injective h)) (set_in alias e hosts raw f)
    by_hosts (some v) h = absurd (ground (arith, h))

seen_of_saved :
    (toml : Toml) (h : Host) (file : Option Text) (t : Table)
    → is_forbidden h.alias ≡ true
    → saved_table toml h file ≡ ok t
    → any is_forbidden (table_keys t) ≡ true
unfolding saved_table
seen_of_saved toml h file t f saved =
    let (raw, _, set) = >>=-eq-ok (read_raw toml file) _ saved in
    set_host-is_seen h.alias _ raw t f set

rejects :
    (toml : Toml) (t : Table)
    → toml.loads (toml.dumps t) ≡ some t
    → any is_forbidden (table_keys t) ≡ true
    → load_config toml (some (toml.dumps t)) ≡ raise config_error
unfolding load_config parsed config_of
rejects toml t reads seen = rw (reads, rejected) refl
  where
    rejected : reject_forbidden_keys (table t) ≡ raise config_error
    rejected = reject_forbidden_keys_lem (table t) ∙ unfold all_keys in rw seen refl

-- If `save_host` writes a host whose alias is one of the forbidden keys, and the TOML library reads
-- back the table that is written, then `load_config` rejects the file that was written with
-- `ConfigError`.
pub save_host-forbidden :
    (toml : Toml) (h : Host) (file : Option Text) (t : Table)
    → is_forbidden h.alias ≡ true
    → saved_table toml h file ≡ ok t
    → toml.loads (toml.dumps t) ≡ some t
    → (save_host toml h file >>= λ written. load_config toml (some written)) ≡ raise config_error
unfolding save_host
save_host-forbidden toml h file t f saved reads =
    rw saved (rejects toml t reads (seen_of_saved toml h file t f saved))
