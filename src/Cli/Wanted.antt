-- ===== src/Cli/Wanted.antt =====
-- The filters of `audit_tail` of cli.py.
use tai_mcp_ssh.Prelude.{
  IsIn, All-append, length-take, ◌≤◌, refl, ℕ, zero, suc, ◌*◌, true, leb, Option, none, some, List,
  [], ◌∷◌, ◌++◌, Text, length, take, All, ◌≡◌, ap, arith, codes, get, text_eq_sound, Bool-cases,
  inl, inr,
}
use tai_mcp_ssh.Audit.Value.{Value, text}
use tai_mcp_ssh.Audit.Files.{AuditRecord}
use tai_mcp_ssh.Cli.{
  LogFile, text_lt, insert, sort_down, backwards, is_wanted, wanted_lines, read_files, is_value,
  passes, read_hosts_of, time_of, audit_tail,
}

module _ {A : Type 0} (P : A → Type 0) where
  All-take : (n : ℕ) (xs : List A) → All P xs → All P (take n xs)
  All-take zero xs h = tt
  All-take (suc n) [] h = tt
  All-take (suc n) (x ∷ xs) h = (h.0, All-take n xs h.1)

  All-insert : (key : A → Text) (x : A) (xs : List A) → P x → All P xs → All P (insert key x xs)
  unfolding insert
  All-insert key x [] hx h = (hx, tt)
  All-insert key x (y ∷ ys) hx h = elim (Bool-cases (text_lt (key x) (key y))) [
    | inl e ↦ rw e (h.0, All-insert key x ys hx h.1)
    | inr e ↦ rw e (hx, h)
  ]

  All-sort_down : (key : A → Text) (xs : List A) → All P xs → All P (sort_down key xs)
  unfolding sort_down
  All-sort_down key [] h = tt
  All-sort_down key (x ∷ xs) h = All-insert key x _ h.0 (All-sort_down key xs h.1)

  All-backwards : (xs : List A) → All P xs → All P (backwards xs)
  unfolding backwards
  All-backwards [] h = tt
  All-backwards (x ∷ xs) h = All-append P (backwards xs) _ (All-backwards xs h.1) (h.0, tt)

All-wider :
    {A : Type 0} (P Q : A → Type 0) (xs : List A) → ((a : A) → P a → Q a) → All P xs → All Q xs
All-wider P Q [] wider h = tt
All-wider P Q (x ∷ xs) wider h = (wider x h.0, All-wider P Q xs wider h.1)

All-IsIn : {A : Type 0} (xs : List A) → All (λ x. IsIn x xs) xs
All-IsIn [] = tt
All-IsIn (x ∷ xs) = (inl refl, All-wider _ _ xs (λ a i. inr i) (All-IsIn xs))

-- the field is the text that a filter asks for, if it asks for one
abbrev Holds : Text → Option Text → AuditRecord → Type 0
Holds field none r = Unit
Holds field (some []) r = Unit
Holds field (some (c ∷ s)) r = get field r ≡ some (text (c ∷ s))

is_value_sound : (s : Text) (v : Option Value) → is_value s v ≡ true → v ≡ some (text s)
unfolding is_value
is_value_sound s (some (text t)) h = ap (λ u. some (text u)) (text_eq_sound t s h)
is_value_sound s (some v) h = absurd (cc)
is_value_sound s none h = absurd (cc)

passes_sound :
    (field : Text) (filter : Option Text) (r : AuditRecord)
    → passes field filter r ≡ true
    → Holds field filter r
unfolding passes
passes_sound field none r h = tt
passes_sound field (some []) r h = tt
passes_sound field (some (c ∷ s)) r h = is_value_sound (c ∷ s) (get field r) h

module _ (session tool : Option Text) (dirs : List (List LogFile)) where
  -- a record that stands on a line of one of the files, and that has what the filters ask for
  pub record IsWanted (r : AuditRecord) : Type 0 where
    pub dir : List LogFile
    pub file : LogFile
    pub listed : IsIn dir dirs
    pub inside : IsIn file dir
    pub read : IsIn (some r) file.lines
    pub of_session : Holds (codes "session") session r
    pub of_tool : Holds (codes "tool") tool r

  module _ (dir : List LogFile) (listed : IsIn dir dirs) where
    wanted_lines-IsWanted :
        (f : LogFile) (lines : List (Option AuditRecord))
        → IsIn f dir
        → All (λ l. IsIn l f.lines) lines
        → All IsWanted (wanted_lines session tool lines)
    unfolding wanted_lines is_wanted
    wanted_lines-IsWanted f [] i h = tt
    wanted_lines-IsWanted f (none ∷ ls) i h = wanted_lines-IsWanted f ls i h.1
    wanted_lines-IsWanted f (some r ∷ ls) i h = elim (Bool-cases (is_wanted session tool r)) [
      | inl e ↦ rw e (wanted e, wanted_lines-IsWanted f ls i h.1)
      | inr e ↦ rw e (wanted_lines-IsWanted f ls i h.1)
    ]
      where
        wanted : is_wanted session tool r ≡ true → IsWanted r
        wanted e = record {
          dir = dir;
          file = f;
          listed = listed;
          inside = i;
          read = h.0;
          of_session = passes_sound (codes "session") session r (ground (arith, e));
          of_tool = passes_sound (codes "tool") tool r (ground (arith, e));
        }

    read_files-IsWanted :
        (enough : ℕ) (fs : List LogFile) (records : List AuditRecord)
        → All (λ f. IsIn f dir) fs
        → All IsWanted records
        → All IsWanted (read_files session tool enough fs records)
    unfolding read_files
    read_files-IsWanted enough [] records i h = h
    read_files-IsWanted enough (f ∷ fs) records i h =
        let more = All-append IsWanted records _ h (
          wanted_lines-IsWanted f (backwards f.lines) i.0
            (All-backwards _ f.lines (All-IsIn f.lines))) in
        elim (Bool-cases
          (leb enough (length (records ++ wanted_lines session tool (backwards f.lines))))) [
            | inl e ↦ rw e more
            | inr e ↦ rw e (read_files-IsWanted enough fs _ i.1 more)
          ]

  read_hosts_of-IsWanted :
      (enough : ℕ) (ds : List (List LogFile)) (records : List AuditRecord)
      → All (λ d. IsIn d dirs) ds
      → All IsWanted records
      → All IsWanted (read_hosts_of session tool enough ds records)
  unfolding read_hosts_of
  read_hosts_of-IsWanted enough [] records i h = h
  read_hosts_of-IsWanted enough (d ∷ ds) records i h = read_hosts_of-IsWanted enough ds _ i.1 (
      read_files-IsWanted d i.0 enough (sort_down (λ f. f.name) d) records
        (All-sort_down _ (λ f. f.name) d (All-IsIn d)) h)

-- Whatever the host directories hold, `audit tail` prints at most `n` records. Each stands on a line of
-- a file of one of the directories, and meets both filters: where a session is asked for, and it is
-- not empty, the record has a field `session` that is this text, and the same for `tool`.
pub audit_tail-IsWanted :
    (n : ℕ) (session tool : Option Text) (dirs : List (List LogFile))
    → (length (audit_tail n session tool dirs) ≤ n)
      × All (IsWanted session tool dirs) (audit_tail n session tool dirs)
unfolding audit_tail
audit_tail-IsWanted n session tool dirs =
    let down = sort_down time_of (read_hosts_of session tool (n * length dirs) dirs []) in
    (
      rw (length-take n down) (omega arith),
      All-take (IsWanted session tool dirs) n down (
          All-sort_down (IsWanted session tool dirs) time_of _ (
            read_hosts_of-IsWanted session tool dirs (n * length dirs) dirs [] (All-IsIn dirs) tt)),
    )
