-- ===== src/Process/Frame.antt =====
-- Statements about the session registry alone, and the actions that do not touch it.
use tai_mcp_ssh.Prelude.{Option, Text, Dict, ℕ}
use tai_mcp_ssh.Audit.Value.{Value}
use tai_mcp_ssh.Sessions.State.{SessionState}
use tai_mcp_ssh.Process.{Process, M, ask, record_event}
use tai_mcp_ssh.Process.Quiet.{Nowhere, Quiet}
use tai_mcp_ssh.Process.Keeps.{Keeps}

-- a statement about the registry, as one about the process
pub record On (Q : Dict SessionState → Type 0) (s : Process) : Type 0 where
  pub holds : Q s.sessions

module _ {Q : Dict SessionState → Type 0} {A : Type 0} where
  pub On-ask : (f : ℕ → A) → Keeps (On Q) (ask f)
  unfolding ask
  On-ask f = record { at = λ s h. record { holds = h.holds } }

module _ {Q : Dict SessionState → Type 0} where
  pub On-record_event :
      (tool : Text) (host : Option Text) (fields : Dict Value)
      → Keeps (On Q) (record_event tool host fields)
  unfolding record_event
  On-record_event tool host fields = record { at = λ s h. record { holds = h.holds } }

module _ {Q : Dict SessionState → Type 0} {A : Type 0} where
  pub Keeps-Quiet : {m : M A} → Quiet Nowhere m → Keeps (On Q) m
  Keeps-Quiet quiet = record { at = λ s h. record { holds = rw (quiet.same s) h.holds } }
