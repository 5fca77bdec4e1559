-- ===== src/Config/Node.antt =====
-- The values of a parsed TOML document, and Python's operations on them.
use tai_mcp_ssh.Prelude.{
  Bool, true, false, not, ◌||◌, Option, none, some, [], ◌≡◌, refl, ◌==◌, arith, if◌then◌else◌, Text,
  text_eq, text_eq_iff, is_some,
}
use tai_mcp_ssh.Prelude.Int.{ℤ, pos, negsuc}
use tai_mcp_ssh.Str.Chars.{int, is_part}
use tai_mcp_ssh.Errors.{Result, ok, raise, value_error, type_error, other_error}

-- A float is given by its integer part, if it is finite, and by whether it differs from zero.
-- `moment` is a date or a time.
mutual
  pub data Node : Type 0 where
    str : Text → Node
    num : ℤ → Node
    bool : Bool → Node
    float : Option ℤ → Bool → Node
    moment : Node
    table : Table → Node
    array : Items → Node

  pub data Table : Type 0 where
    end : Table
    entry : Text → Node → Table → Table

  pub data Items : Type 0 where
    nil : Items
    item : Node → Items → Items

-- t.get(k)
unfoldable pub get_key : Text → Table → Option Node
get_key k end = none
get_key k (entry j v t) = if text_eq j k then some v else get_key k t

-- t[k] = v
unfoldable pub put_key : Text → Node → Table → Table
put_key k v end = entry k v end
put_key k v (entry j w t) = if text_eq j k then entry j v t else entry j w (put_key k v t)

-- del t[k]
unfoldable pub remove_key : Text → Table → Table
remove_key k end = end
remove_key k (entry j w t) =
    let rest = remove_key k t in if text_eq j k then rest else entry j w rest

pub get_key-put_key :
    (k j : Text) (v : Node) (t : Table)
    → get_key j (put_key k v t) ≡ (if text_eq k j then some v else get_key j t)
unfolding get_key put_key
get_key-put_key k j v end = refl
get_key-put_key k j v (entry i w t) =
    ground (arith, get_key-put_key k j v t, text_eq_iff i k, text_eq_iff i j, text_eq_iff k j)

pub get_key-remove_key :
    (k j : Text) (t : Table)
    → get_key j (remove_key k t) ≡ (if text_eq k j then none else get_key j t)
unfolding get_key remove_key
get_key-remove_key k j end = ground arith
get_key-remove_key k j (entry i w t) =
    ground (arith, get_key-remove_key k j t, text_eq_iff i k, text_eq_iff i j, text_eq_iff k j)

pub ruleset table_laws = (get_key-put_key, get_key-remove_key)

is_zero : ℤ → Bool
is_zero (pos n) = n == 0
is_zero (negsuc n) = false

-- `not v`
unfoldable pub is_falsy : Node → Bool
unfolding is_zero
is_falsy (str []) = true
is_falsy (num n) = is_zero n
is_falsy (bool b) = not b
is_falsy (float n nonzero) = not nonzero
is_falsy (table end) = true
is_falsy (array nil) = true
is_falsy _ = false

unfoldable pub or_other : Option ℤ → Result ℤ
or_other none = raise other_error
or_other (some n) = ok n

unfoldable pub or_value : Option ℤ → Result ℤ
or_value none = raise value_error
or_value (some n) = ok n

-- `int(v)`; the exception for a float that is not finite is no `ValueError` in every case
unfoldable pub to_int : Node → Result ℤ
unfolding or_other or_value
to_int (num n) = ok n
to_int (bool b) = ok (pos (if b then 1 else 0))
to_int (float n nonzero) = or_other n
to_int (str s) = or_value (int s)
to_int _ = raise type_error

-- `v == text`
unfoldable pub is_text : Text → Node → Bool
is_text t (str s) = text_eq s t
is_text t _ = false

any_text : Text → Items → Bool
unfolding is_text
any_text t nil = false
any_text t (item v vs) = is_text t v || any_text t vs

-- `text in v`
unfoldable pub contains_text : Text → Node → Result Bool
unfolding any_text
contains_text t (table entries) = ok (is_some (get_key t entries))
contains_text t (str s) = ok (is_part t s)
contains_text t (array vs) = ok (any_text t vs)
contains_text t _ = raise type_error
