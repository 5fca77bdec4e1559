-- ===== src/Process/Quiet.antt =====
-- Actions that leave the session registry alone, end, raise nothing that is already audited, and
-- record no failed call. What files they may write is a parameter: a local path, or any remote file.
use tai_mcp_ssh.Prelude.{
  get, ℕ, ◌≤◌, Bool, true, false, Text, Dict, Option, ◌≡◌, refl, ◌∙◌, arith, if◌then◌else◌,
}
use tai_mcp_ssh.Errors.{Exc, Result, ok, raise, pending, audited, Calm}
use tai_mcp_ssh.Audit.Value.{Value}
use tai_mcp_ssh.Audit.Failures.{is_failure, failures, failures-succeeds}
use tai_mcp_ssh.Process.{
  Process, M, pure, throw, lift, gets, ask, modify, continue, ◌>>=◌, on_error, catch, record_event,
}

pub data Place : Type 0 where
  local_file : Text → Place
  remote_files : Place

abbrev pub Nowhere : Place → Type 0
Nowhere p = ⊥

-- what is written at most at the places `W`
pub record Writes (W : Place → Type 0) (s t : Process) : Type 0 where
  pub files : (k : Text) → ¬ W (local_file k) → get k t.downloads ≡ get k s.downloads
  pub sends : ¬ W remote_files → t.uploads ≡ s.uploads

module _ {W : Place → Type 0} where
  Writes-none : (s : Process) → Writes W s s
  Writes-none s = record { files = λ k h. refl; sends = λ h. refl }

  pub Writes-then : {s t u : Process} → Writes W s t → Writes W t u → Writes W s u
  Writes-then a b = record {
    files = λ k h. b.files k h ∙ a.files k h;
    sends = λ h. b.sends h ∙ a.sends h;
  }

pub Writes-same :
    {W : Place → Type 0} {s t : Process}
    → t.downloads ≡ s.downloads
    → t.uploads ≡ s.uploads
    → Writes W s t
Writes-same same_files same_sends = record {
  files = λ k h. rw same_files refl;
  sends = λ h. same_sends;
}

pub record Quiet (W : Place → Type 0) {A : Type 0} (m : M A) : Type 0 where
  pub same : (s : Process) → (m s).1.sessions ≡ s.sessions
  pub later : (s : Process) → s.tick ≤ (m s).1.tick
  pub calm : (s : Process) → Calm (m s).0
  pub clean : (s : Process) → failures (m s).1.audit ≡ failures s.audit
  pub writes : (s : Process) → Writes W s (m s).1

pub Quiet-wider : {W : Place → Type 0} {A : Type 0} {m : M A} → Quiet Nowhere m → Quiet W m
Quiet-wider quiet = record {
  same = quiet.same;
  later = quiet.later;
  calm = quiet.calm;
  clean = quiet.clean;
  writes = λ s. record {
    files = λ k h. (quiet.writes s).files k (λ x. x);
    sends = λ h. (quiet.writes s).sends (λ x. x);
  };
}

module _ {W : Place → Type 0} {A : Type 0} where
  pub Quiet-pure : (a : A) → Quiet W (pure a)
  unfolding pure
  Quiet-pure a = record {
    same = λ s. refl;
    later = λ s. omega arith;
    calm = λ s. tt;
    clean = λ s. refl;
    writes = λ s. Writes-none s;
  }

  pub Quiet-throw : (e : Exc) → audited e ≡ false → Quiet W (throw {A = A} e)
  unfolding throw
  Quiet-throw e h = record {
    same = λ s. refl;
    later = λ s. omega arith;
    calm = λ s. h;
    clean = λ s. refl;
    writes = λ s. Writes-none s;
  }

  pub Quiet-lift : (r : Result A) → Calm r → Quiet W (lift r)
  unfolding lift
  Quiet-lift r h = record {
    same = λ s. refl;
    later = λ s. omega arith;
    calm = λ s. h;
    clean = λ s. refl;
    writes = λ s. Writes-none s;
  }

  pub Quiet-gets : (look : Process → A) → Quiet W (gets look)
  unfolding gets
  Quiet-gets look = record {
    same = λ s. refl;
    later = λ s. omega arith;
    calm = λ s. tt;
    clean = λ s. refl;
    writes = λ s. Writes-none s;
  }

  pub Quiet-ask : (answer : ℕ → A) → Quiet W (ask answer)
  unfolding ask
  Quiet-ask answer = record {
    same = λ s. refl;
    later = λ s. omega arith;
    calm = λ s. tt;
    clean = λ s. refl;
    writes = λ s. record { files = λ k x. refl; sends = λ x. refl };
  }

  pub Quiet-if : (b : Bool) (m n : M A) → Quiet W m → Quiet W n → Quiet W (if b then m else n)
  Quiet-if true m n qm qn = qm
  Quiet-if false m n qm qn = qn

pub Quiet-modify :
    {W : Place → Type 0} (f : Process → Process)
    → ((s : Process)
        → ((f s).sessions ≡ s.sessions) × ((f s).tick ≡ s.tick) × ((f s).audit ≡ s.audit))
    → ((s : Process) → Writes W s (f s))
    → Quiet W (modify f)
unfolding modify
Quiet-modify f unchanged w = record {
  same = λ s. (unchanged s).0;
  later = λ s. omega (arith, (unchanged s).1);
  calm = λ s. tt;
  clean = λ s. rw (unchanged s).2 refl;
  writes = w;
}

pub Quiet-record_event :
    {W : Place → Type 0} (tool : Text) (host : Option Text) (fields : Dict Value)
    → is_failure (record { tool = tool; host = host; fields = fields }) ≡ false
    → Quiet W (record_event tool host fields)
unfolding record_event
Quiet-record_event tool host fields h = record {
  same = λ s. refl;
  later = λ s. omega arith;
  calm = λ s. tt;
  clean = λ s. failures-succeeds s.audit _ h;
  writes = λ s. record { files = λ k x. refl; sends = λ x. refl };
}

module _ {W : Place → Type 0} {A B : Type 0} where
  Quiet-continue :
      (r : Result A) (f : A → M B) → Calm r → ((a : A) → Quiet W (f a)) → Quiet W (continue r f)
  Quiet-continue (ok a) f h qf = record {
    same = (qf a).same;
    later = (qf a).later;
    calm = (qf a).calm;
    clean = (qf a).clean;
    writes = (qf a).writes;
  }
  Quiet-continue (raise e) f h qf = record {
    same = λ s. refl;
    later = λ s. omega arith;
    calm = λ s. h;
    clean = λ s. refl;
    writes = λ s. Writes-none s;
  }
  Quiet-continue pending f h qf = absurd h

  pub Quiet-bind :
      (m : M A) (f : A → M B) → Quiet W m → ((a : A) → Quiet W (f a)) → Quiet W (m >>= f)
  unfolding ◌>>=◌
  Quiet-bind m f qm qf = record {
    same = λ s. (next s).same (m s).1 ∙ qm.same s;
    later = λ s. omega (arith, (next s).later (m s).1, qm.later s);
    calm = λ s. (next s).calm (m s).1;
    clean = λ s. (next s).clean (m s).1 ∙ qm.clean s;
    writes = λ s. Writes-then (qm.writes s) ((next s).writes (m s).1);
  }
    where
      next : (s : Process) → Quiet W (continue (m s).0 f)
      next s = Quiet-continue (m s).0 f (qm.calm s) qf

module _ {W : Place → Type 0} {A : Type 0} where
  Quiet-on_error :
      (r : Result A) (h : Exc → M A)
      → Calm r
      → ((e : Exc) → audited e ≡ false → Quiet W (h e))
      → Quiet W (on_error r h)
  Quiet-on_error (ok a) h c qh = record {
    same = λ s. refl;
    later = λ s. omega arith;
    calm = λ s. tt;
    clean = λ s. refl;
    writes = λ s. Writes-none s;
  }
  Quiet-on_error (raise e) h c qh = record {
    same = (qh e c).same;
    later = (qh e c).later;
    calm = (qh e c).calm;
    clean = (qh e c).clean;
    writes = (qh e c).writes;
  }
  Quiet-on_error pending h c qh = absurd c

  -- the handler sees only what is not yet audited
  pub Quiet-catch :
      (m : M A) (h : Exc → M A)
      → Quiet W m
      → ((e : Exc) → audited e ≡ false → Quiet W (h e))
      → Quiet W (catch m h)
  unfolding catch
  Quiet-catch m h qm qh = record {
    same = λ s. (next s).same (m s).1 ∙ qm.same s;
    later = λ s. omega (arith, (next s).later (m s).1, qm.later s);
    calm = λ s. (next s).calm (m s).1;
    clean = λ s. (next s).clean (m s).1 ∙ qm.clean s;
    writes = λ s. Writes-then (qm.writes s) ((next s).writes (m s).1);
  }
    where
      next : (s : Process) → Quiet W (on_error (m s).0 h)
      next s = Quiet-on_error (m s).0 h (qm.calm s) qh
