-- ===== src/Process/Tells.antt =====
-- The failed calls that actions record: none, or one right before they raise an exception that is
-- marked as audited.
use tai_mcp_ssh.Prelude.{
  Bool, true, false, List, [], ◌∷◌, ◌++◌, Text, codes, some, Option, Dict, get, ◌≡◌, refl, ap, ◌∙◌,
  suc, text_eq, if◌then◌else◌, arith,
}
use tai_mcp_ssh.Errors.{Exc, Result, ok, raise, pending, audited, transfer_denied}
use tai_mcp_ssh.Audit.Value.{Value, text, Event}
use tai_mcp_ssh.Audit.Failures.{is_internal, is_failure, failures, failures-fails}
use tai_mcp_ssh.Sessions.State.{SessionState}
use tai_mcp_ssh.Process.{Env, Process, M, throw, continue, ◌>>=◌, on_error, catch, record_event}
use tai_mcp_ssh.Errors.{Calm}
use tai_mcp_ssh.Process.Quiet.{Place, Nowhere, Quiet}
use tai_mcp_ssh.Process.Settles.{Settles}
use tai_mcp_ssh.Process.Frame.{On}

-- the last record is one of the tool, with the status
pub record IsLast (tool status : Text) (audit : List Event) : Type 0 where
  pub earlier : List Event
  pub last : Event
  pub at_end : audit ≡ earlier ++ last ∷ []
  pub of_tool : last.tool ≡ tool
  pub has_status : get (codes "status") last.fields ≡ some (text status)

-- How an action ends that starts in `s`: with a value or an exception, and no failed call recorded,
-- or with an exception that is marked, right after its record.
abbrev pub Told : Text → {A : Type 0} → Result A → Process → Process → Type 0
Told tool (ok a) s t = failures t.audit ≡ failures s.audit
Told tool (raise e) s t =
    (audited e ≡ false → failures t.audit ≡ failures s.audit)
    × (audited e ≡ true
        → (failures t.audit ≡ suc (failures s.audit)) × IsLast tool (codes "rejected") t.audit)
Told tool pending s t = ⊥

module _ (tool : Text) {A : Type 0} where
  Told-Calm :
      (r : Result A) (s t : Process)
      → Calm r
      → failures t.audit ≡ failures s.audit
      → Told tool r s t
  Told-Calm (ok a) s t calm same = same
  Told-Calm (raise e) s t calm same = (λ _. same, λ h. absurd (ground (arith, h, calm)))
  Told-Calm pending s t calm same = calm

  -- what went before recorded no failed call
  Told-after :
      (r : Result A) (s t u : Process)
      → failures t.audit ≡ failures s.audit
      → Told tool r t u
      → Told tool r s u
  Told-after (ok a) s t u same told = told ∙ same
  Told-after (raise e) s t u same told =
      (λ h. told.0 h ∙ same, λ h. ((told.1 h).0 ∙ ap suc same, (told.1 h).1))
  Told-after pending s t u same told = told

-- `m` keeps `Q` of the registry, and is told.
pub record Tells (Q : Dict SessionState → Type 0) (tool : Text) {A : Type 0} (m : M A)
    : Type 0 where
  pub at : (s : Process) → On Q s → On Q (m s).1 × Told tool (m s).0 s (m s).1

module _ {Q : Dict SessionState → Type 0} {tool : Text} {A : Type 0} where
  pub Tells-Quiet : {m : M A} → Quiet Nowhere m → Tells Q tool m
  Tells-Quiet {m} quiet = record {
    at = λ s h. (
      record { holds = rw (quiet.same s) h.holds },
      Told-Calm tool (m s).0 s (m s).1 (quiet.calm s) (quiet.clean s),
    );
  }

  pub Tells-if :
      (b : Bool) (m n : M A) → Tells Q tool m → Tells Q tool n → Tells Q tool (if b then m else n)
  Tells-if true m n hm hn = hm
  Tells-if false m n hm hn = hn

module _ {tool : Text} {A : Type 0} where
  pub Tells-Settles : (env : Env) {m : M A} → Settles env 0 m → Tells (λ _. Unit) tool m
  Tells-Settles env {m} settles = record {
    at = λ s h. (
      record { holds = tt },
      Told-Calm tool (m s).0 s (m s).1 (settles.at s (omega arith)).0
          (settles.clean s (omega arith)),
    );
  }

module _ {Q : Dict SessionState → Type 0} {tool : Text} {A B : Type 0} where
  Tells-continue :
      (r : Result A) (f : A → M B) (s t : Process)
      → On Q t
      → Told tool r s t
      → ((a : A) → Tells Q tool (f a))
      → On Q (continue r f t).1 × Told tool (continue r f t).0 s (continue r f t).1
  Tells-continue (ok a) f s t q told hf =
      let rest = (hf a).at t q in (rest.0, Told-after tool (f a t).0 s t (f a t).1 told rest.1)
  Tells-continue (raise e) f s t q told hf = (q, told)
  Tells-continue pending f s t q told hf = absurd told

  pub Tells-bind :
      (m : M A) (f : A → M B)
      → Tells Q tool m
      → ((a : A) → Tells Q tool (f a))
      → Tells Q tool (m >>= f)
  unfolding ◌>>=◌
  Tells-bind m f hm hf = record {
    at = λ s q. Tells-continue (m s).0 f s (m s).1 (hm.at s q).0 (hm.at s q).1 hf;
  }

module _ {Q : Dict SessionState → Type 0} {tool : Text} {A : Type 0} where
  Tells-on_error :
      (r : Result A) (h : Exc → M A) (s t : Process)
      → On Q t
      → Calm r
      → failures t.audit ≡ failures s.audit
      → ((e : Exc) → audited e ≡ false → Tells Q tool (h e))
      → On Q (on_error r h t).1 × Told tool (on_error r h t).0 s (on_error r h t).1
  Tells-on_error (ok a) h s t q calm same hh = (q, same)
  Tells-on_error (raise e) h s t q calm same hh =
      let rest = (hh e calm).at t q in (rest.0, Told-after tool (h e t).0 s t (h e t).1 same rest.1)
  Tells-on_error pending h s t q calm same hh = absurd calm

  -- the handler of a quiet action
  pub Tells-catch :
      {W : Place → Type 0} (m : M A) (h : Exc → M A)
      → Quiet W m
      → ((e : Exc) → audited e ≡ false → Tells Q tool (h e))
      → Tells Q tool (catch m h)
  unfolding catch
  Tells-catch m h quiet hh = record {
    at = λ s q.
        Tells-on_error (m s).0 h s (m s).1 (record { holds = rw (quiet.same s) q.holds })
          (quiet.calm s) (quiet.clean s) hh;
  }

module _ {Q : Dict SessionState → Type 0} {tool : Text} {A : Type 0} where
  -- a denial, recorded and then raised
  pub Tells-denial :
      (host : Option Text) (fields : Dict Value)
      → is_internal tool ≡ false
      → get (codes "status") fields ≡ some (text (codes "rejected"))
      → Tells Q tool (record_event tool host fields >>= λ _. throw {A = A} (transfer_denied true))
  unfolding record_event throw ◌>>=◌ text_eq
  Tells-denial host fields outer status = record {
    at = λ s q. (
      record { holds = q.holds },
      (
        λ h. absurd (ground (arith, h)),
        λ h. (
          failures-fails s.audit _ (denied status),
          record {
            earlier = s.audit;
            last = _;
            at_end = refl;
            of_tool = refl;
            has_status = status;
          },
        ),
      ),
    );
  }
    where
      denied :
          get (codes "status") fields ≡ some (text (codes "rejected"))
          → is_failure (record { tool = tool; host = host; fields = fields }) ≡ true
      denied status = rw (outer, status) refl
