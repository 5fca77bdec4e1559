-- ===== src/Transfer/Returns.antt =====
-- What is true of an action that returns.
use tai_mcp_ssh.Prelude.{Bool, true, false, if◌then◌else◌, ◌≡◌, ◌≢◌, refl, sym}
use mathlib.Core.Path.{subst}
use tai_mcp_ssh.Errors.{Exc, Result, ok, raise, pending, ok-injective}
use tai_mcp_ssh.Process.{Process, M, pure, throw, modify, ◌>>=◌, on_error, catch}
use tai_mcp_ssh.Process.Run.{>>=-returned}
use tai_mcp_ssh.Process.Quiet.{Nowhere, Writes, Quiet}

-- from the state before, the value, and the state afterwards
pub record Does {A : Type 0} (R : Process → A → Process → Type 0) (m : M A) : Type 0 where
  pub at : (s : Process) (a : A) → (m s).0 ≡ ok a → R s a (m s).1

-- `R` does not see what leaves all files alone
abbrev pub Stable : {A : Type 0} → (Process → A → Process → Type 0) → Type 0
Stable {A} R = (s s' : Process) (a : A) (t : Process) → Writes Nowhere s s' → R s' a t → R s a t

module _ {A B : Type 0} {R : Process → A → Process → Type 0}
    {T : Process → B → Process → Type 0} where
  pub Does-then :
      (m : M A) (f : A → M B)
      → Does R m
      → ((s : Process) (a : A) (t : Process) (b : B) → R s a t → (f a t).0 ≡ ok b → T s b (f a t).1)
      → Does T (m >>= f)
  Does-then m f does rest = record { at = λ s b h. through s b (>>=-returned m f s b h) h }
    where
      through :
          (s : Process) (b : B)
          → (a : A) × ((t : Process) × ((m s ≡ (ok a, t)) × ((m >>= f) s ≡ f a t)))
          → ((m >>= f) s).0 ≡ ok b
          → T s b ((m >>= f) s).1
      through s b (a, (t, (e, g))) h =
          let r : R s a t = subst (λ x. R s a x.1) e (does.at s a (rw e refl)) in
          rw g (rest s a t b r (rw (sym g) h))

module _ {A B : Type 0} {T : Process → B → Process → Type 0} where
  pub Does-after :
      (m : M A) (f : A → M B)
      → Stable T
      → Quiet Nowhere m
      → ((a : A) → Does T (f a))
      → Does T (m >>= f)
  Does-after m f stable quiet rest =
      Does-then {R = λ s a t. Writes Nowhere s t} m f (record { at = λ s a h. quiet.writes s })
        (λ s a t b w h. stable s t b (f a t).1 w ((rest a).at t b h))

module _ {A : Type 0} {R : Process → A → Process → Type 0} where
  -- the handler does not return
  pub Does-catch :
      (m : M A) (h : Exc → M A)
      → Does R m
      → ((e : Exc) (t : Process) (a : A) → (h e t).0 ≢ ok a)
      → Does R (catch m h)
  unfolding catch
  Does-catch m h does never = record { at = λ s a g. by_result s a (m s).0 (m s).1 refl g }
    where
      by_result :
          (s : Process) (a : A) (r : Result A) (t : Process)
          → m s ≡ (r, t)
          → (on_error r h t).0 ≡ ok a
          → R s a (on_error (m s).0 h (m s).1).1
      by_result s a (ok x) t e g = rw e (subst (λ y. R s a y.1) e (does.at s a (rw e g)))
      by_result s a (raise x) t e g = absurd (never x t a g)
      by_result s a pending t e g = absurd (cc)

module _ {A : Type 0} {R : Process → A → Process → Type 0} where
  pub Does-pure : (a : A) → ((s : Process) → R s a s) → Does R (pure a)
  unfolding pure
  Does-pure a holds = record { at = λ s b h. subst (λ x. R s x s) (ok-injective h) (holds s) }

  pub Does-throw : (e : Exc) → Does R (throw e)
  unfolding throw
  Does-throw e = record { at = λ s a h. absurd (cc) }

pub Does-modify :
    {R : Process → Unit {0} → Process → Type 0} (f : Process → Process)
    → ((s : Process) → R s tt (f s))
    → Does R (modify f)
unfolding modify
Does-modify f holds = record { at = λ s a h. holds s }

module _ {A : Type 0} {R : Process → A → Process → Type 0} where
  pub Does-if : (b : Bool) (m n : M A) → Does R m → Does R n → Does R (if b then m else n)
  Does-if true m n hm hn = hm
  Does-if false m n hm hn = hn
