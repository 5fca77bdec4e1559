-- ===== src/Process/Keeps.antt =====
-- Invariants of actions: a rule for each way to build one.
use tai_mcp_ssh.Prelude.{Bool, true, false, if◌then◌else◌}
use tai_mcp_ssh.Errors.{Exc, Result, ok, raise, pending}
use tai_mcp_ssh.Process.{
  Process, M, pure, throw, out_of_fuel, lift, gets, continue, ◌>>=◌, on_error, catch,
}

-- `m` keeps `P`, however it ends.
pub record Keeps (P : Process → Type 0) {A : Type 0} (m : M A) : Type 0 where
  pub at : (s : Process) → P s → P (m s).1

module _ {P : Process → Type 0} {A : Type 0} where
  pub Keeps-out_of_fuel : Keeps P (out_of_fuel {A = A})
  unfolding out_of_fuel
  Keeps-out_of_fuel = record { at = λ s kept. kept }

  pub Keeps-gets : (look : Process → A) → Keeps P (gets look)
  unfolding gets
  Keeps-gets look = record { at = λ s kept. kept }

  pub Keeps-throw : (e : Exc) → Keeps P (throw {A = A} e)
  unfolding throw
  Keeps-throw e = record { at = λ s kept. kept }

  pub Keeps-pure : (a : A) → Keeps P (pure a)
  unfolding pure
  Keeps-pure a = record { at = λ s kept. kept }

  pub Keeps-lift : (r : Result A) → Keeps P (lift r)
  unfolding lift
  Keeps-lift r = record { at = λ s kept. kept }

  pub Keeps-if : (b : Bool) (m n : M A) → Keeps P m → Keeps P n → Keeps P (if b then m else n)
  Keeps-if true m n km kn = km
  Keeps-if false m n km kn = kn

module _ {P : Process → Type 0} {A B : Type 0} where
  Keeps-continue : (r : Result A) (f : A → M B) → ((a : A) → Keeps P (f a)) → Keeps P (continue r f)
  Keeps-continue (ok a) f kf = record { at = (kf a).at }
  Keeps-continue (raise e) f kf = record { at = λ s h. h }
  Keeps-continue pending f kf = record { at = λ s h. h }

  pub Keeps-bind :
      (m : M A) (f : A → M B) → Keeps P m → ((a : A) → Keeps P (f a)) → Keeps P (m >>= f)
  unfolding ◌>>=◌
  Keeps-bind m f km kf = record { at = λ s h. (Keeps-continue (m s).0 f kf).at (m s).1 (km.at s h) }

module _ {P : Process → Type 0} {A : Type 0} where
  Keeps-on_error :
      (r : Result A) (h : Exc → M A) → ((e : Exc) → Keeps P (h e)) → Keeps P (on_error r h)
  Keeps-on_error (ok a) h kh = record { at = λ s p. p }
  Keeps-on_error (raise e) h kh = record { at = (kh e).at }
  Keeps-on_error pending h kh = record { at = λ s p. p }

  pub Keeps-catch :
      (m : M A) (h : Exc → M A) → Keeps P m → ((e : Exc) → Keeps P (h e)) → Keeps P (catch m h)
  unfolding catch
  Keeps-catch m h km kh = record {
    at = λ s p. (Keeps-on_error (m s).0 h kh).at (m s).1 (km.at s p);
  }

abbrev pub Post : {A : Type 0} → (A → Type 0) → Result A → Type 0
Post R (ok a) = R a
Post R (raise e) = Unit
Post R pending = Unit

-- `m` keeps `P`, and what it returns, if it returns, has `R`.
pub record Gives (P : Process → Type 0) {A : Type 0} (R : A → Type 0) (m : M A) : Type 0 where
  pub at : (s : Process) → P s → P (m s).1 × Post R (m s).0

module _ {P : Process → Type 0} {A : Type 0} (R : A → Type 0) where
  pub Gives-pure : (a : A) → R a → Gives P R (pure a)
  unfolding pure
  Gives-pure a r = record { at = λ s h. (h, r) }

  pub Gives-throw : (e : Exc) → Gives P R (throw e)
  unfolding throw
  Gives-throw e = record { at = λ s h. (h, tt) }

module _ {P : Process → Type 0} {A B : Type 0} {R : A → Type 0} where
  Gives-continue :
      (r : Result A) (f : A → M B)
      → Post R r
      → ((a : A) → R a → Keeps P (f a))
      → Keeps P (continue r f)
  Gives-continue (ok a) f h kf = record { at = (kf a h).at }
  Gives-continue (raise e) f h kf = record { at = λ s p. p }
  Gives-continue pending f h kf = record { at = λ s p. p }

  -- the rest of a block may use what is known of the value
  pub Keeps-then :
      (m : M A) (f : A → M B) → Gives P R m → ((a : A) → R a → Keeps P (f a)) → Keeps P (m >>= f)
  unfolding ◌>>=◌
  Keeps-then m f gm kf = record {
    at = λ s h. (Gives-continue (m s).0 f (gm.at s h).1 kf).at (m s).1 (gm.at s h).0;
  }

module _ {P : Process → Type 0} {A B : Type 0} {R : A → Type 0} (T : B → Type 0) where
  continue-Gives :
      (r : Result A) (f : A → M B)
      → Post R r
      → ((a : A) → R a → Gives P T (f a))
      → Gives P T (continue r f)
  continue-Gives (ok a) f h kf = record { at = (kf a h).at }
  continue-Gives (raise e) f h kf = record { at = λ s p. (p, tt) }
  continue-Gives pending f h kf = record { at = λ s p. (p, tt) }

  pub Gives-then :
      (m : M A) (f : A → M B)
      → Gives P R m
      → ((a : A) → R a → Gives P T (f a))
      → Gives P T (m >>= f)
  unfolding ◌>>=◌
  Gives-then m f gm kf = record {
    at = λ s h. (continue-Gives (m s).0 f (gm.at s h).1 kf).at (m s).1 (gm.at s h).0;
  }

module _ {A : Type 0} where
  Post-any : (r : Result A) → Post (λ _. Unit {0}) r
  Post-any (ok a) = tt
  Post-any (raise e) = tt
  Post-any pending = tt

module _ {P : Process → Type 0} {A : Type 0} where
  pub Gives-any : (m : M A) → Keeps P m → Gives P (λ _. Unit {0}) m
  Gives-any m km = record { at = λ s h. (km.at s h, Post-any (m s).0) }

pub ruleset keeps_rules = (
  Keeps-pure, Keeps-throw, Keeps-out_of_fuel, Keeps-lift, Keeps-gets, Keeps-if, Keeps-bind,
  Keeps-catch,
)
