-- ===== src/Audit/Record.antt =====
-- `_build_record` of audit.py, with `SECRET_KEYS` and `_RESERVED`.
pub mod Fields
use tai_mcp_ssh.Prelude.{
  ℕ, Bool, true, false, ◌||◌, not, List, [], ◌∷◌, if◌then◌else◌, Text, codes, text_eq, member, Dict,
  put,
}
use tai_mcp_ssh.Audit.Value.{Value, text}
use tai_mcp_ssh.Audit.Redact.{redacted, redact_command}

abbrev pub secret_keys : List Text
secret_keys =
    codes "password"
    ∷ codes "passwd"
    ∷ codes "secret"
    ∷ codes "token"
    ∷ codes "private_key"
    ∷ codes "passphrase"
    ∷ codes "resolved_password"
    ∷ []

abbrev pub reserved : List Text
reserved = codes "ts" ∷ codes "tool" ∷ codes "host" ∷ []

-- a command that is a text is redacted
unfoldable pub redact_value : Value → Value
redact_value (text s) = text (redact_command s)
redact_value v = v

-- the value under a key that is not reserved
unfoldable pub scrub : Text → Value → Value
scrub k v =
    if member k secret_keys
    then text redacted
    else if text_eq k (codes "cmd")
    then redact_value v
    else v

-- one round of the loop over the fields
unfoldable pub with_field : Text → Value → Dict Value → Dict Value
with_field k v r = if member k reserved then r else put k (scrub k v) r

unfoldable pub add_fields : Dict Value → Dict Value → Dict Value
add_fields r [] = r
add_fields r ((k, v) ∷ fields) = add_fields (with_field k v r) fields

-- `_build_record`, given the printed time
unfoldable pub build_record : Text → Text → Text → Dict Value → Dict Value
build_record ts tool host fields =
    add_fields ((codes "ts", text ts) ∷ (codes "tool", text tool) ∷ (codes "host", text host) ∷ [])
      fields
