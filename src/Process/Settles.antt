-- ===== src/Process/Settles.antt =====
-- Actions that end with a result or an exception, when the clock goes on.
use tai_mcp_ssh.Errors.{Calm}
use tai_mcp_ssh.Process.Quiet.{Nowhere, Quiet}
use tai_mcp_ssh.Prelude.{
  zero, ◌+◌, ◌-◌, sym, ℕ, suc, ◌≤◌, ◌<◌, Bool, true, false, Text, Dict, Option, ◌≡◌, refl, ◌∙◌,
  arith, if◌then◌else◌,
}
use tai_mcp_ssh.Errors.{Exc, audited, Result, ok, raise, pending}
use tai_mcp_ssh.Audit.Value.{Value}
use tai_mcp_ssh.Audit.Failures.{is_failure, failures, failures-succeeds}
use tai_mcp_ssh.Process.{
  lift, catch, on_error, Process, Env, M, pure, throw, ask, gets, modify, continue, ◌>>=◌,
  record_event,
}

-- Each outside call takes at least the clock's unit.
abbrev pub Ticks : Env → Type 0
Ticks env = (t : ℕ) → env.now t < env.now (suc t)

now-add : (env : Env) (n t d : ℕ) → Ticks env → n ≤ env.now t → n ≤ env.now (t + d)
now-add env n t zero ticks h = ground (arith, h)
now-add env n t (suc d) ticks h = ground (arith, now-add env n t d ticks h, ticks (t + d))

module _ (env : Env) where
  now_mono : (n t u : ℕ) → Ticks env → n ≤ env.now t → t ≤ u → n ≤ env.now u
  now_mono n t u ticks h later =
      let same : t + (u - t) ≡ u = omega arith in rw (sym same) (now-add env n t (u - t) ticks h)

  -- Started at the time `n` or later, `m` settles, and does not turn the clock back before `n`.
  pub record Settles (n : ℕ) {A : Type 0} (m : M A) : Type 0 where
    pub at : (s : Process) → n ≤ env.now s.tick → Calm (m s).0 × (n ≤ env.now (m s).1.tick)
    pub clean : (s : Process) → n ≤ env.now s.tick → failures (m s).1.audit ≡ failures s.audit

  module _ {n : ℕ} {A : Type 0} where
    pub Settles-pure : (a : A) → Settles n (pure a)
    unfolding pure
    Settles-pure a = record { at = λ s h. (tt, h); clean = λ s h. refl }

    pub Settles-throw : (e : Exc) → audited e ≡ false → Settles n (throw {A = A} e)
    unfolding throw
    Settles-throw e calm = record { at = λ s h. (calm, h); clean = λ s h. refl }

    pub Settles-lift : (r : Result A) → Calm r → Settles n (lift r)
    unfolding lift
    Settles-lift r calm = record { at = λ s h. (calm, h); clean = λ s h. refl }

    pub Settles-Quiet : Ticks env → {m : M A} → Quiet Nowhere m → Settles n m
    Settles-Quiet ticks {m} quiet = record {
      at = λ s h. (quiet.calm s, now_mono n s.tick (m s).1.tick ticks h (quiet.later s));
      clean = λ s h. quiet.clean s;
    }

    pub Settles-gets : (f : Process → A) → Settles n (gets f)
    unfolding gets
    Settles-gets f = record { at = λ s h. (tt, h); clean = λ s h. refl }

    pub Settles-if :
        (b : Bool) (p q : M A) → Settles n p → Settles n q → Settles n (if b then p else q)
    Settles-if true p q hp hq = hp
    Settles-if false p q hp hq = hq

    pub Settles-ask : Ticks env → (f : ℕ → A) → Settles n (ask f)
    unfolding ask
    Settles-ask ticks f = record { at = λ s h. (tt, later s.tick h); clean = λ s h. refl }
      where
        later : (t : ℕ) → n ≤ env.now t → n ≤ env.now (suc t)
        later t h = let step : env.now t < env.now (suc t) = ticks t in omega arith

  pub Settles-modify :
      {n : ℕ} (f : Process → Process)
      → ((s : Process) → ((f s).tick ≡ s.tick) × ((f s).audit ≡ s.audit))
      → Settles n (modify f)
  unfolding modify
  Settles-modify f same = record {
    at = λ s h. (tt, rw (same s).0 h);
    clean = λ s h. rw (same s).1 refl;
  }

  pub Settles-record_event :
      {n : ℕ} (tool : Text) (host : Option Text) (fields : Dict Value)
      → is_failure (record { tool = tool; host = host; fields = fields }) ≡ false
      → Settles n (record_event tool host fields)
  unfolding record_event
  Settles-record_event tool host fields h = record {
    at = λ s p. (tt, p);
    clean = λ s p. failures-succeeds s.audit _ h;
  }

  module _ {n : ℕ} {A B : Type 0} where
    Settles-continue :
        (r : Result A) (f : A → M B)
        → Calm r
        → ((a : A) → Settles n (f a))
        → Settles n (continue r f)
    Settles-continue (ok a) f h hf = record { at = (hf a).at; clean = (hf a).clean }
    Settles-continue (raise e) f h hf = record { at = λ s p. (h, p); clean = λ s p. refl }
    Settles-continue pending f h hf = absurd h

    pub Settles-bind :
        (m : M A) (f : A → M B) → Settles n m → ((a : A) → Settles n (f a)) → Settles n (m >>= f)
    unfolding ◌>>=◌
    Settles-bind m f hm hf = record {
      at = λ s h. (Settles-continue (m s).0 f (hm.at s h).0 hf).at (m s).1 (hm.at s h).1;
      clean = λ s h.
          (Settles-continue (m s).0 f (hm.at s h).0 hf).clean (m s).1 (hm.at s h).1 ∙ hm.clean s h;
    }

  module _ {n : ℕ} {A : Type 0} where
    Settles-on_error :
        (r : Result A) (h : Exc → M A)
        → Calm r
        → ((e : Exc) → audited e ≡ false → Settles n (h e))
        → Settles n (on_error r h)
    Settles-on_error (ok a) h c hh = record { at = λ s p. (tt, p); clean = λ s p. refl }
    Settles-on_error (raise e) h c hh = record { at = (hh e c).at; clean = (hh e c).clean }
    Settles-on_error pending h c hh = absurd c

    pub Settles-catch :
        (m : M A) (h : Exc → M A)
        → Settles n m
        → ((e : Exc) → audited e ≡ false → Settles n (h e))
        → Settles n (catch m h)
    unfolding catch
    Settles-catch m h hm hh = record {
      at = λ s p. (Settles-on_error (m s).0 h (hm.at s p).0 hh).at (m s).1 (hm.at s p).1;
      clean = λ s p.
          (Settles-on_error (m s).0 h (hm.at s p).0 hh).clean (m s).1 (hm.at s p).1 ∙ hm.clean s p;
    }

  -- What follows a look at the clock starts later than the time that was read.
  pub Settles-now :
      {n : ℕ} {B : Type 0} (f : ℕ → M B)
      → Ticks env
      → ((now : ℕ) → n ≤ now → Settles (suc now) (f now))
      → Settles n (ask env.now >>= f)
  unfolding ask ◌>>=◌
  Settles-now {n} f ticks hf = record {
    at = λ s h.
        from s h ((hf (env.now s.tick) h).at (record s { tick = suc s.tick }) (ticks s.tick));
    clean = λ s h. (hf (env.now s.tick) h).clean (record s { tick = suc s.tick }) (ticks s.tick);
  }
    where
      from :
          (s : Process)
          → n ≤ env.now s.tick
          → Calm (f (env.now s.tick) (record s { tick = suc s.tick })).0
            × (suc (env.now s.tick)
                ≤ env.now (f (env.now s.tick) (record s { tick = suc s.tick })).1.tick)
          → Calm (f (env.now s.tick) (record s { tick = suc s.tick })).0
            × (n ≤ env.now (f (env.now s.tick) (record s { tick = suc s.tick })).1.tick)
      from s h (a, b) = (a, omega arith)
