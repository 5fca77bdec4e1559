-- ===== src/Audit/Record/Fields.antt =====
-- What a record has under each key.
use mathlib.Core.Path.{subst}
use tai_mcp_ssh.Prelude.{
  All, List, true, false, Option, none, some, [], ◌∷◌, if◌then◌else◌, Text, codes, text_eq,
  text_eq_iff, member, Dict, get, get-put, ◌≡◌, refl, ap, ◌∙◌, sym, arith, Bool-cases, inl, inr,
}
use tai_mcp_ssh.Audit.Value.{Value, text}
use tai_mcp_ssh.Audit.Redact.{redacted}
use tai_mcp_ssh.Audit.Record.{secret_keys, reserved, scrub, with_field, add_fields, build_record}

-- keyword arguments: no name twice
abbrev pub Distinct : Dict Value → Type 0
Distinct [] = Unit
Distinct ((k, v) ∷ d) = (get k d ≡ none) × Distinct d

with_field-other :
    (j k : Text) (v : Value) (r : Dict Value)
    → text_eq j k ≡ false
    → get k (with_field j v r) ≡ get k r
unfolding with_field
with_field-other j k v r h = elim (Bool-cases (member j reserved)) [
  | inl e ↦ rw e refl
  | inr e ↦ rw (e, get-put j k (scrub j v) r, h) refl
]

with_field-reserved :
    (k : Text) (v : Value) (r : Dict Value)
    → member k reserved ≡ true
    → get k (with_field k v r) ≡ get k r
unfolding with_field
with_field-reserved k v r h = rw h refl

with_field-given :
    (k : Text) (v : Value) (r : Dict Value)
    → member k reserved ≡ false
    → get k (with_field k v r) ≡ some (scrub k v)
unfolding with_field
with_field-given k v r h = rw (h, get-put k k (scrub k v) r, (text_eq_iff k k).1 refl) refl

add_fields-absent :
    (k : Text) (r fields : Dict Value) → get k fields ≡ none → get k (add_fields r fields) ≡ get k r
unfolding add_fields get
add_fields-absent k r [] h = refl
add_fields-absent k r ((j, v) ∷ fields) h =
    add_fields-absent k (with_field j v r) fields (ground (arith, h))
    ∙ with_field-other j k v r (ground (arith, h))

add_fields-reserved :
    (k : Text) (r fields : Dict Value)
    → member k reserved ≡ true
    → get k (add_fields r fields) ≡ get k r
unfolding add_fields
add_fields-reserved k r [] h = refl
add_fields-reserved k r ((j, v) ∷ fields) h =
    add_fields-reserved k (with_field j v r) fields h ∙ elim (Bool-cases (text_eq j k)) [
      | inl e ↦ rw ((text_eq_iff j k).0 e) (with_field-reserved k v r h)
      | inr e ↦ with_field-other j k v r e
    ]

-- what the keyword arguments say under a key that is not reserved
abbrev pub scrubbed : Text → Option Value → Option Value
scrubbed k none = none
scrubbed k (some v) = some (scrub k v)

add_fields-given :
    (k : Text) (r fields : Dict Value)
    → member k reserved ≡ false
    → Distinct fields
    → get k r ≡ none
    → get k (add_fields r fields) ≡ scrubbed k (get k fields)
unfolding add_fields get
add_fields-given k r [] free distinct fresh = fresh
add_fields-given k r ((j, v) ∷ fields) free distinct fresh = elim (Bool-cases (text_eq j k)) [
  | inl e ↦
      let same : j ≡ k = (text_eq_iff j k).0 e in
      rw (e, same)
        (add_fields-absent k (with_field k v r) fields
            (ap (λ i. get i fields) (sym same) ∙ distinct.0)
          ∙ with_field-given k v r free)
  | inr e ↦ rw e (
      add_fields-given k (with_field j v r) fields free distinct.1
        (with_field-other j k v r e ∙ fresh))
]

not_filled_in :
    (ts tool host k : Text)
    → member k reserved ≡ false
    → get k ((codes "ts", text ts) ∷ (codes "tool", text tool) ∷ (codes "host", text host) ∷ [])
      ≡ none
unfolding get member
not_filled_in ts tool host k h = ground (arith, h)

-- A record has, under `ts`, `tool` and `host`, what `record` fills in and never what the caller
-- passes; under any other key, what the caller passes, scrubbed for that key, and nothing where the
-- caller passes nothing. No keyword argument is passed twice.
pub build_record_lem :
    (ts tool host k : Text) (fields : Dict Value)
    → Distinct fields
    → get k (build_record ts tool host fields) ≡ (
        if member k reserved
        then get k
            ((codes "ts", text ts) ∷ (codes "tool", text tool) ∷ (codes "host", text host) ∷ [])
        else scrubbed k (get k fields))
unfolding build_record
build_record_lem ts tool host k fields distinct = elim (Bool-cases (member k reserved)) [
  | inl e ↦ rw e (add_fields-reserved k _ fields e)
  | inr e ↦ rw e (add_fields-given k _ fields e distinct (not_filled_in ts tool host k e))
]

of_member :
    (k : Text) (ks : List Text)
    → member k ks ≡ true
    → All (λ j. member j reserved ≡ false) ks
    → member k reserved ≡ false
unfolding member
of_member k [] h all = absurd (ground (arith, h))
of_member k (j ∷ ks) h all = elim (Bool-cases (text_eq j k)) [
  | inl e ↦ subst (λ i. member i reserved ≡ false) ((text_eq_iff j k).0 e) all.0
  | inr e ↦ of_member k ks (ground (arith, e, h)) all.1
]

not_reserved : (k : Text) → member k secret_keys ≡ true → member k reserved ≡ false
unfolding member text_eq
not_reserved k h =
    of_member k secret_keys h (refl, (refl, (refl, (refl, (refl, (refl, (refl, tt)))))))

scrub-secret :
    (k : Text) (o : Option Value) {v : Value}
    → member k secret_keys ≡ true
    → scrubbed k o ≡ some v
    → v ≡ text redacted
unfolding scrub
scrub-secret k none h e = absurd (ground (arith, e))
scrub-secret k (some w) h e = ground (arith, h, e)

-- What a record has under the name of a secret, if anything, is `<redacted>`, whatever the caller
-- passes, where no keyword argument is passed twice.
pub build_record-redacts :
    (ts tool host k : Text) (fields : Dict Value) (v : Value)
    → member k secret_keys ≡ true
    → Distinct fields
    → get k (build_record ts tool host fields) ≡ some v
    → v ≡ text redacted
build_record-redacts ts tool host k fields v secret distinct found =
    scrub-secret k (get k fields) secret (sym given ∙ found)
  where
    given : get k (build_record ts tool host fields) ≡ scrubbed k (get k fields)
    given = build_record_lem ts tool host k fields distinct ∙ rw (not_reserved k secret) refl
