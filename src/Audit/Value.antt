-- ===== src/Audit/Value.antt =====
-- The values of the records of audit.py.
use tai_mcp_ssh.Prelude.{ℕ, Bool, Option, none, some, List, Text, Dict}
use tai_mcp_ssh.Prelude.Int.{ℤ}

pub data Value : Type 0 where
  null : Value
  text : Text → Value
  number : ℤ → Value
  flag : Bool → Value
  texts : List Text → Value
  counts : Dict ℕ → Value

-- A call of `AuditLog.record`.
pub record Event : Type 0 where
  pub tool : Text
  pub host : Option Text
  pub fields : Dict Value

abbrev pub optional_text : Option Text → Value
optional_text none = null
optional_text (some s) = text s

abbrev pub optional_number : Option ℤ → Value
optional_number none = null
optional_number (some n) = number n
