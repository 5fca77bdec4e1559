-- ===== src/Errors.antt =====
-- errors.py, with the exception classes of Python and of the libraries that the program raises,
-- catches or lets through. What an exception says is not modelled; its class and `audited` are.
use Prim.Native.Nat.{ℕ}
use mathlib.Core.Path.{◌≡◌, refl}
use mathlib.Core.Bool.{Bool, true, false}
use tai_mcp_ssh.Prelude.{if◌then◌else◌}

pub data Exc : Type 0 where
  config_error host_not_allowed tmux_missing keychain_unavailable host_unreachable : Exc
  transfer_denied : Bool → Exc
  value_error key_error type_error runtime_error file_not_found os_error process_error : Exc
  sftp_error : ℕ → Exc
  connection_lost other_error : Exc

-- `getattr(exc, "audited", False)`
abbrev pub audited : Exc → Bool
audited (transfer_denied b) = b
audited config_error = false
audited _ = false

-- `isinstance(exc, DEAD_CONN_ERRORS)`: what asyncssh raises of a lost transport, and any `OSError`
abbrev pub is_dead_error : Exc → Bool
is_dead_error connection_lost = true
is_dead_error os_error = true
is_dead_error file_not_found = true
is_dead_error _ = false

-- `isinstance(exc, TaiMcpSshError)`
unfoldable pub is_tai_error : Exc → Bool
is_tai_error config_error = true
is_tai_error host_not_allowed = true
is_tai_error tmux_missing = true
is_tai_error keychain_unavailable = true
is_tai_error host_unreachable = true
is_tai_error (transfer_denied b) = true
is_tai_error _ = false

-- What a call comes to. `pending` is a loop that has used up its fuel.
pub data Result {ℓ} (A : Type ℓ) : Type ℓ where
  ok : A → Result A
  raise : Exc → Result A
  pending : Result A

-- a result, or an exception that nothing has been recorded of, and not a loop cut short
abbrev pub Calm {ℓ} : {A : Type ℓ} → Result A → Type 0
Calm (ok a) = Unit
Calm (raise e) = audited e ≡ false
Calm pending = ⊥

module _ {ℓ κ} {A : Type ℓ} {B : Type κ} where
  infixl 5 ◌>>=◌
  -- an exception, or a loop cut short, ends a block
  abbrev pub ◌>>=◌ : Result A → (A → Result B) → Result B
  pending >>= rest = pending
  raise e >>= rest = raise e
  ok a >>= rest = rest a

  -- What a block that returned has come through.
  pub >>=-eq-ok :
      (first : Result A) (rest : A → Result B) {b : B}
      → (first >>= rest) ≡ ok b
      → (a : A) × (first ≡ ok a) × (rest a ≡ ok b)
  >>=-eq-ok pending rest returned = cc
  >>=-eq-ok (raise e) rest returned = cc
  >>=-eq-ok (ok a) rest returned = (a, refl, returned)

-- the same, with its rules
pub record IsCalm {ℓ} {A : Type ℓ} (r : Result A) : Type 0 where
  pub calm : Calm r

module _ {ℓ} {A : Type ℓ} where
  pub ok-IsCalm : (a : A) → IsCalm (ok a)
  ok-IsCalm a = record { calm = tt }

  pub raise-IsCalm : (e : Exc) → audited e ≡ false → IsCalm {A = A} (raise e)
  raise-IsCalm e h = record { calm = h }

  pub if-IsCalm : (b : Bool) (r q : Result A) → IsCalm r → IsCalm q → IsCalm (if b then r else q)
  if-IsCalm true r q hr hq = hr
  if-IsCalm false r q hr hq = hq

module _ {ℓ κ} {A : Type ℓ} {B : Type κ} where
  pub >>=-IsCalm :
      (first : Result A) (rest : A → Result B)
      → IsCalm first
      → ((a : A) → IsCalm (rest a))
      → IsCalm (first >>= rest)
  >>=-IsCalm (ok a) rest h next = next a
  >>=-IsCalm (raise e) rest h next = record { calm = h.calm }
  >>=-IsCalm pending rest h next = absurd h.calm

infixl 5 ◌>>◌
abbrev pub ◌>>◌ {ℓ} : {B : Type ℓ} → Result (Unit {0}) → Result B → Result B
first >> rest = first >>= λ _. rest

pub ok-injective {ℓ} : {A : Type ℓ} {a b : A} → ok a ≡ ok b → a ≡ b
ok-injective same = cc
