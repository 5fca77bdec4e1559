-- ===== src/Config/Forbidden.antt =====
-- `FORBIDDEN_KEYS` and `_reject_forbidden_keys` of config.py.
use tai_mcp_ssh.Prelude.{
  Bool, true, false, ◌||◌, List, [], ◌∷◌, ◌++◌, ◌≡◌, refl, arith, if◌then◌else◌, Text, codes,
  member, any,
}
use tai_mcp_ssh.Errors.{Result, ok, raise, config_error, ◌>>=◌}
use tai_mcp_ssh.Config.Node.{
  Node, Table, Items, str, num, bool, float, moment, table, array, end, entry, nil, item,
}

unfoldable pub forbidden_keys : List Text
forbidden_keys =
    codes "password"
    ∷ codes "passwd"
    ∷ codes "secret"
    ∷ codes "token"
    ∷ codes "private_key"
    ∷ codes "passphrase"
    ∷ []

unfoldable pub is_forbidden : Text → Bool
unfolding forbidden_keys
is_forbidden k = member k forbidden_keys

unfoldable mutual
  pub reject_forbidden_keys : Node → Result (Unit {0})
  reject_forbidden_keys (table t) = reject_table t
  reject_forbidden_keys (array vs) = reject_items vs
  reject_forbidden_keys (str s) = ok tt
  reject_forbidden_keys (num n) = ok tt
  reject_forbidden_keys (bool b) = ok tt
  reject_forbidden_keys (float n nonzero) = ok tt
  reject_forbidden_keys moment = ok tt

  pub reject_table : Table → Result (Unit {0})
  reject_table end = ok tt
  reject_table (entry k v t) =
      if is_forbidden k
      then raise config_error
      else (reject_forbidden_keys v >>= λ _. reject_table t)

  pub reject_items : Items → Result (Unit {0})
  reject_items nil = ok tt
  reject_items (item v vs) = reject_forbidden_keys v >>= λ _. reject_items vs

-- The keys of a value, at any depth.
unfoldable mutual
  pub all_keys : Node → List Text
  all_keys (table t) = table_keys t
  all_keys (array vs) = items_keys vs
  all_keys (str s) = []
  all_keys (num n) = []
  all_keys (bool b) = []
  all_keys (float n nonzero) = []
  all_keys moment = []

  pub table_keys : Table → List Text
  table_keys end = []
  table_keys (entry k v t) = k ∷ (all_keys v ++ table_keys t)

  pub items_keys : Items → List Text
  items_keys nil = []
  items_keys (item v vs) = all_keys v ++ items_keys vs

abbrev pub rejected_if : Bool → Result (Unit {0})
rejected_if true = raise config_error
rejected_if false = ok tt

pub any-append :
    (xs ys : List Text) → any is_forbidden (xs ++ ys) ≡ (any is_forbidden xs || any is_forbidden ys)
any-append [] ys = refl
any-append (x ∷ xs) ys = ground (arith, any-append xs ys)

both :
    (v rest : List Text)
    → (rejected_if (any is_forbidden v) >>= λ _. rejected_if (any is_forbidden rest))
      ≡ rejected_if (any is_forbidden (v ++ rest))
both v rest = ground (arith, any-append v rest)

mutual
  unfolding reject_forbidden_keys all_keys

  reject_node : (v : Node) → reject_forbidden_keys v ≡ rejected_if (any is_forbidden (all_keys v))
  reject_node (table t) = reject_entries t
  reject_node (array vs) = reject_all vs
  reject_node (str s) = refl
  reject_node (num n) = refl
  reject_node (bool b) = refl
  reject_node (float n nonzero) = refl
  reject_node moment = refl

  reject_entries : (t : Table) → reject_table t ≡ rejected_if (any is_forbidden (table_keys t))
  reject_entries end = refl
  reject_entries (entry k v t) =
      ground (arith, reject_node v, reject_entries t, any-append (all_keys v) (table_keys t))

  reject_all : (vs : Items) → reject_items vs ≡ rejected_if (any is_forbidden (items_keys vs))
  reject_all nil = refl
  reject_all (item v vs) =
      ground (arith, reject_node v, reject_all vs, any-append (all_keys v) (items_keys vs))

-- A value is rejected, with `ConfigError`, exactly if one of the forbidden keys stands in it, in a
-- table at any depth, tables in arrays included; it passes if there is none.
pub reject_forbidden_keys_lem :
    (v : Node) → reject_forbidden_keys v ≡ rejected_if (any is_forbidden (all_keys v))
reject_forbidden_keys_lem v = reject_node v
