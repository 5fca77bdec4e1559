-- ===== src/Cli/Recent.antt =====
-- The records that `audit_tail` of cli.py prints.
use tai_mcp_ssh.Prelude.{
  ℕ, zero, suc, ◌*◌, ◌≤◌, false, leb, Option, List, [], ◌∷◌, ◌++◌, append-nil, append_assoc, Text,
  length, take, ◌≡◌, refl, sym, ap, ◌∙◌, arith, leb→le, Bool-cases, inl, inr,
}
use mathlib.Core.Path.{subst}
use tai_mcp_ssh.Audit.Files.{AuditRecord}
use tai_mcp_ssh.Cli.{
  LogFile, text_lt, insert, sort_down, backwards, wanted_lines, read_files, read_hosts_of, time_of,
  audit_tail,
}

module _ {A : Type 0} (key : A → Text) where
  -- no entry is less than the one after it
  abbrev pub IsDown : List A → Type 0
  IsDown [] = Unit
  IsDown (x ∷ []) = Unit
  IsDown (x ∷ y ∷ ys) = (text_lt (key x) (key y) ≡ false) × IsDown (y ∷ ys)

  sort_down-IsDown : (xs : List A) → IsDown xs → sort_down key xs ≡ xs
  unfolding sort_down insert
  sort_down-IsDown [] h = refl
  sort_down-IsDown (x ∷ []) h = refl
  sort_down-IsDown (x ∷ y ∷ ys) h = ap (insert key x) (sort_down-IsDown (y ∷ ys) h.1) ∙ rw h.0 refl

module _ {A : Type 0} where
  take-append : (n : ℕ) (xs ys : List A) → n ≤ length xs → take n (xs ++ ys) ≡ take n xs
  take-append zero xs ys h = refl
  take-append (suc n) [] ys h = absurd (omega arith)
  take-append (suc n) (x ∷ xs) ys h = ap (λ l. x ∷ l) (take-append n xs ys (omega arith))

module _ (session tool : Option Text) where
  -- all the wanted records of files, the newest first
  abbrev pub all_wanted : List LogFile → List AuditRecord
  all_wanted [] = []
  all_wanted (f ∷ fs) = wanted_lines session tool (backwards f.lines) ++ all_wanted fs

  -- what is read is all, or enough and a prefix of all
  read_files-take :
      (enough : ℕ) (fs : List LogFile) (records : List AuditRecord)
      → take enough (read_files session tool enough fs records)
        ≡ take enough (records ++ all_wanted fs)
  unfolding read_files
  read_files-take enough [] records = ap (take enough) (sym (append-nil records))
  read_files-take enough (f ∷ fs) records =
      elim (Bool-cases
        (leb enough (length (records ++ wanted_lines session tool (backwards f.lines))))) [
          | inl e ↦ rw e (
              sym (
                ap (take enough) (
                  sym (
                    append_assoc records (wanted_lines session tool (backwards f.lines))
                      (all_wanted fs)))
                ∙ take-append enough (records ++ wanted_lines session tool (backwards f.lines))
                    (all_wanted fs) (leb→le _ _ e)))
          | inr e ↦ rw e (
              read_files-take enough fs (records ++ wanted_lines session tool (backwards f.lines))
              ∙ ap (take enough) (
                  append_assoc records (wanted_lines session tool (backwards f.lines))
                    (all_wanted fs)))
        ]

  -- what is read, and what is left
  read_files-prefix :
      (enough : ℕ) (fs : List LogFile) (records : List AuditRecord)
      → (rest : List AuditRecord) × (records ++ all_wanted fs
          ≡ read_files session tool enough fs records ++ rest)
  unfolding read_files
  read_files-prefix enough [] records = ([], refl)
  read_files-prefix enough (f ∷ fs) records =
      elim (Bool-cases
        (leb enough (length (records ++ wanted_lines session tool (backwards f.lines))))) [
          | inl e ↦ rw e (
            all_wanted fs,
            sym (
                append_assoc records (wanted_lines session tool (backwards f.lines))
                  (all_wanted fs)),
          )
          | inr e ↦ rw e (
              let later =
                read_files-prefix enough fs
                  (records ++ wanted_lines session tool (backwards f.lines)) in
              (
                later.0,
                sym (
                      append_assoc records (wanted_lines session tool (backwards f.lines))
                        (all_wanted fs))
                    ∙ later.1,
              ))
        ]

IsDown-prefix :
    {A : Type 0} (key : A → Text) (xs ys : List A) → IsDown key (xs ++ ys) → IsDown key xs
IsDown-prefix key [] ys h = tt
IsDown-prefix key (x ∷ []) ys h = tt
IsDown-prefix key (x ∷ y ∷ xs) ys h = (h.0, IsDown-prefix key (y ∷ xs) ys h.1)

-- Where one host directory is looked at, and its records of interest, read from the newest file to
-- the oldest and from the last line of each to the first, have times that do not rise, `audit tail`
-- prints the first `n` of them in that order: the most recent ones of all the files, although it
-- stops reading as soon as it has enough. Lines that are not JSON are passed over.
pub audit_tail-one_host :
    (n : ℕ) (session tool : Option Text) (files : List LogFile)
    → IsDown time_of (all_wanted session tool (sort_down (λ f. f.name) files))
    → audit_tail n session tool (files ∷ [])
      ≡ take n (all_wanted session tool (sort_down (λ f. f.name) files))
unfolding audit_tail read_hosts_of
audit_tail-one_host n session tool files down =
    let newest = sort_down (λ f. f.name) files in
    let p = read_files-prefix session tool (n * 1) newest [] in
    let read_down =
      IsDown-prefix time_of (read_files session tool (n * 1) newest []) p.0
        (subst (IsDown time_of) p.1 down) in
    ap (take n) (sort_down-IsDown time_of (read_files session tool (n * 1) newest []) read_down)
    ∙ subst
        (λ k.
          take k (read_files session tool (n * 1) newest [])
          ≡ take k (all_wanted session tool newest))
        (times_one n) (read_files-take session tool (n * 1) newest [])
  where
    times_one : (n : ℕ) → n * 1 ≡ n
    times_one n = omega arith
