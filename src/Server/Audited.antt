-- ===== src/Server/Audited.antt =====
-- `_dispatch_and_audit` of server.py, and the records of failed calls.
use tai_mcp_ssh.Prelude.{
  List, suc, ◌≡◌, refl, ap, ◌∙◌, Text, Bool, true, false, ◌&&◌, codes, some, get, text_eq,
  Bool-cases, ◌⊎◌, inl, inr, arith,
}
use tai_mcp_ssh.Errors.{Exc, Result, ok, raise, pending, audited, is_tai_error, transfer_denied}
use tai_mcp_ssh.Audit.Value.{text, Event}
use tai_mcp_ssh.Audit.Failures.{is_failed, is_internal, failures, failures-fails}
use tai_mcp_ssh.Process.{Env, Process, M, ask, record_event, throw, catch, on_error, ◌>>=◌}
use tai_mcp_ssh.Process.Settles.{Ticks}
use tai_mcp_ssh.Process.Tells.{IsLast, Told}
use tai_mcp_ssh.Server.{
  Args, Answer, dispatch, is_rejection, audit_failure, audit_and_raise, dispatch_and_audit,
}
use tai_mcp_ssh.Server.Frame.{dispatch-Tells}

-- the last record is that of a call of the tool that was rejected or failed
abbrev pub IsFailed : Text → List Event → Type 0
IsFailed name audit = IsLast name (codes "rejected") audit ⊎ IsLast name (codes "error") audit

-- A call that starts in `s` and ends in `t` has one record of a failed call, its last, if it raises,
-- and none if it returns.
abbrev pub IsAudited : Text → {A : Type 0} → Result A → Process → Process → Type 0
IsAudited name (ok a) s t = failures t.audit ≡ failures s.audit
IsAudited name (raise e) s t = (failures t.audit ≡ suc (failures s.audit)) × IsFailed name t.audit
IsAudited name pending s t = ⊥

-- the one mark of the program
marked : (e : Exc) → audited e ≡ true → e ≡ transfer_denied true
marked (transfer_denied true) h = refl
marked e h = absurd (ground (arith, h))

unmarked : (b : Bool) (e : Exc) → audited e ≡ false → (b && audited e) ≡ false
unmarked true e h = h
unmarked false e h = refl

module _ (env : Env) (name : Text) (args : Args) (outer : is_internal name ≡ false) where
  abbrev report : Text → Exc → M Answer
  report status e = audit_failure env name args status >>= λ _. throw e

  reported :
      (status : Text) (e : Exc) (s t : Process)
      → is_failed (some (text status)) ≡ true
      → failures t.audit ≡ failures s.audit
      → ((a : List Event) → IsLast name status a → IsFailed name a)
      → IsAudited name (report status e t).0 s (report status e t).1
  unfolding audit_failure ask record_event throw ◌>>=◌ get text_eq
  reported status e s t is_status same either = (
    failures-fails t.audit _ (rw (outer, is_status) refl) ∙ ap suc same,
    either _
        (record { earlier = t.audit; last = _; at_end = refl; of_tool = refl; has_status = refl }),
  )

  -- the clauses, for an exception that nothing has been recorded of
  unmarked-IsAudited :
      (e : Exc) (s t : Process)
      → audited e ≡ false
      → failures t.audit ≡ failures s.audit
      → IsAudited name (audit_and_raise env name args e t).0 s (audit_and_raise env name args e t).1
  unfolding audit_and_raise text_eq
  unmarked-IsAudited e s t quiet same = elim (Bool-cases (is_rejection e)) [
    | inl h ↦ rw h (reported (codes "rejected") e s t refl same (λ u. inl))
    | inr h ↦
        rw (h, unmarked (is_tai_error e) e quiet)
          (reported (codes "error") e s t refl same (λ u. inr))
  ]

  handled-IsAudited :
      (e : Exc) (s t : Process)
      → Told name {A = Answer} (raise e) s t
      → IsAudited name (audit_and_raise env name args e t).0 s (audit_and_raise env name args e t).1
  unfolding audit_and_raise is_rejection is_tai_error throw
  handled-IsAudited e s t told = elim (Bool-cases (audited e)) [
    | inl h ↦ rw (marked e h) ((told.1 h).0, inl (told.1 h).1)
    | inr h ↦ unmarked-IsAudited e s t h (told.0 h)
  ]

  on_error-IsAudited :
      (r : Result Answer) (s t : Process)
      → Told name r s t
      → IsAudited name
          (on_error r (audit_and_raise env name args) t).0
          s
          (on_error r (audit_and_raise env name args) t).1
  on_error-IsAudited (ok a) s t told = told
  on_error-IsAudited (raise e) s t told = handled-IsAudited e s t told
  on_error-IsAudited pending s t told = absurd told

-- Where each outside call takes at least a microsecond, a call of any tool, known or not, whose name
-- does not begin with an underscore, with any arguments, ends, whatever the remote hosts, the local
-- files and the keychain answer. If it returns, it has added no record of a rejected or failed call.
-- If it raises, it has added exactly one, as the last record of the log: it carries the tool's name
-- and the status `rejected` or `error`, also where the transfer manager recorded the denial itself.
pub dispatch_and_audit-IsAudited :
    (env : Env) (name : Text) (args : Args) (s : Process)
    → Ticks env
    → is_internal name ≡ false
    → IsAudited name (dispatch_and_audit env name args s).0 s (dispatch_and_audit env name args s).1
unfolding dispatch_and_audit catch
dispatch_and_audit-IsAudited env name args s ticks outer =
    on_error-IsAudited env name args outer (dispatch env name args s).0 s
      (dispatch env name args s).1
      ((dispatch-Tells env ticks name args).at s (record { holds = tt })).1
