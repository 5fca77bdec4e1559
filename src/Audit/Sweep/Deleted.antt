-- ===== src/Audit/Sweep/Deleted.antt =====
-- The loops of `_sweep_files_sync` of audit.py, and the files that they delete.
use tai_mcp_ssh.Prelude.{
  IsIn, ℕ, zero, suc, Bool, true, false, List, [], ◌∷◌, ◌++◌, Text, ◌≡◌, refl, arith, if◌then◌else◌,
  Bool-cases, ◌⊎◌, inl, inr,
}
use mathlib.Core.Path.{subst}
use tai_mcp_ssh.Prelude.Int.{ℤ}
use tai_mcp_ssh.Audit.Sweep.{
  Entry, HostDir, Swept, is_due, unlink, sweep_entries, count_host, sweep_dirs,
}

module _ {A : Type 0} where
  IsIn-earlier : (a : A) (xs ys : List A) → IsIn a xs → IsIn a (xs ++ ys)
  IsIn-earlier a [] ys h = absurd h
  IsIn-earlier a (x ∷ xs) ys (inl e) = inl e
  IsIn-earlier a (x ∷ xs) ys (inr h) = inr (IsIn-earlier a xs ys h)

  IsIn-last : (a : A) (xs : List A) → IsIn a (xs ++ a ∷ [])
  IsIn-last a [] = inl refl
  IsIn-last a (x ∷ xs) = inr (IsIn-last a xs)

  IsIn-append : (a b : A) (xs : List A) → IsIn a (xs ++ b ∷ []) → IsIn a xs ⊎ (a ≡ b)
  IsIn-append a b [] (inl e) = inr e
  IsIn-append a b [] (inr h) = absurd h
  IsIn-append a b (x ∷ xs) (inl e) = inl (inl e)
  IsIn-append a b (x ∷ xs) (inr h) = elim (IsIn-append a b xs h) [
    | inl i ↦ inl (inr i)
    | inr e ↦ inr e
  ]

count_host-deleted : (host : Text) (a : ℕ × Swept) → (count_host host a).deleted ≡ a.1.deleted
unfolding count_host
count_host-deleted host (zero, w) = refl
count_host-deleted host (suc n, w) = refl

module _ (cutoff : ℤ) where
  -- one more file, or none
  step : Text → Entry → ℕ × Swept → ℕ × Swept
  step host e a = if is_due cutoff e then unlink host e a else a

  step-keeps :
      (host : Text) (e : Entry) (a : ℕ × Swept) (x : Text × Entry)
      → IsIn x a.1.deleted
      → IsIn x (step host e a).1.deleted
  unfolding step unlink
  step-keeps host e a x h = elim (Bool-cases (is_due cutoff e)) [
    | inr no_date ↦ rw no_date h
    | inl due ↦ elim (Bool-cases e.unlinks) [
      | inr kept ↦ rw (due, kept) h
      | inl gone ↦ rw (due, gone) (IsIn-earlier x a.1.deleted _ h)
    ]
  ]

  step-deletes :
      (host : Text) (e : Entry) (a : ℕ × Swept)
      → is_due cutoff e ≡ true
      → e.unlinks ≡ true
      → IsIn (host, e) (step host e a).1.deleted
  unfolding step unlink
  step-deletes host e a due gone = by_tests (is_due cutoff e) e.unlinks due gone
    where
      by_tests :
          (due gone : Bool)
          → due ≡ true
          → gone ≡ true
          → IsIn
              (host, e)
              (if due
                then (if gone
                    then (suc a.0, record a.1 { deleted = a.1.deleted ++ (host, e) ∷ [] })
                    else (a.0, record a.1 { errors = a.1.errors ++ e.name ∷ [] }))
                else a).1.deleted
      by_tests true true d g = IsIn-last (host, e) a.1.deleted
      by_tests true false d g = absurd (ground (arith, g))
      by_tests false gone d g = absurd (ground (arith, d))

  step_sound :
      (host : Text) (e : Entry) (a : ℕ × Swept) (x : Text × Entry)
      → IsIn x (step host e a).1.deleted
      → IsIn x a.1.deleted ⊎ (is_due cutoff x.1 ≡ true)
  unfolding step unlink
  step_sound host e a x h = by_tests (is_due cutoff e) e.unlinks refl h
    where
      by_tests :
          (due gone : Bool)
          → is_due cutoff e ≡ due
          → IsIn x
              (if due
                then (if gone
                    then (suc a.0, record a.1 { deleted = a.1.deleted ++ (host, e) ∷ [] })
                    else (a.0, record a.1 { errors = a.1.errors ++ e.name ∷ [] }))
                else a).1.deleted
          → IsIn x a.1.deleted ⊎ (is_due cutoff x.1 ≡ true)
      by_tests false gone d i = inl i
      by_tests true false d i = inl i
      by_tests true true d i = elim (IsIn-append x (host, e) a.1.deleted i) [
        | inl before ↦ inl before
        | inr same ↦ inr (rw same d)
      ]

  entries-keeps :
      (host : Text) (es : List Entry) (a : ℕ × Swept) (x : Text × Entry)
      → IsIn x a.1.deleted
      → IsIn x (sweep_entries cutoff host es a).1.deleted
  unfolding sweep_entries step
  entries-keeps host [] a x h = h
  entries-keeps host (e ∷ es) a x h = entries-keeps host es _ x (step-keeps host e a x h)

  entries-deletes :
      (host : Text) (es : List Entry) (a : ℕ × Swept) (e : Entry)
      → IsIn e es
      → is_due cutoff e ≡ true
      → e.unlinks ≡ true
      → IsIn (host, e) (sweep_entries cutoff host es a).1.deleted
  unfolding sweep_entries step
  entries-deletes host [] a e h due gone = absurd h
  entries-deletes host (d ∷ es) a e (inl same) due gone =
      entries-keeps host es _ (host, e)
        (subst (λ z. IsIn (host, e) (step host z a).1.deleted) same
          (step-deletes host e a due gone))
  entries-deletes host (d ∷ es) a e (inr h) due gone = entries-deletes host es _ e h due gone

  entries_sound :
      (host : Text) (es : List Entry) (a : ℕ × Swept) (x : Text × Entry)
      → IsIn x (sweep_entries cutoff host es a).1.deleted
      → IsIn x a.1.deleted ⊎ (is_due cutoff x.1 ≡ true)
  unfolding sweep_entries step
  entries_sound host [] a x h = inl h
  entries_sound host (e ∷ es) a x h = elim (entries_sound host es _ x h) [
    | inl before ↦ step_sound host e a x before
    | inr due ↦ inr due
  ]

  -- one more host, or none
  dir_step : HostDir → Swept → Swept
  dir_step d w =
      if d.is_dir then count_host d.name (sweep_entries cutoff d.name d.entries (0, w)) else w

  dir_step-keeps :
      (d : HostDir) (w : Swept) (x : Text × Entry)
      → IsIn x w.deleted
      → IsIn x (dir_step d w).deleted
  unfolding dir_step
  dir_step-keeps d w x h = elim (Bool-cases d.is_dir) [
    | inr no_dir ↦ rw no_dir h
    | inl is_dir ↦
        rw (is_dir, count_host-deleted d.name (sweep_entries cutoff d.name d.entries (0, w)))
          (entries-keeps d.name d.entries (0, w) x h)
  ]

  dir_step-deletes :
      (d : HostDir) (w : Swept) (e : Entry)
      → d.is_dir ≡ true
      → IsIn e d.entries
      → is_due cutoff e ≡ true
      → e.unlinks ≡ true
      → IsIn (d.name, e) (dir_step d w).deleted
  unfolding dir_step
  dir_step-deletes d w e is_dir i due gone = by_test d.is_dir is_dir
    where
      by_test :
          (b : Bool)
          → b ≡ true
          → IsIn
              (d.name, e)
              (if b
                then count_host d.name (sweep_entries cutoff d.name d.entries (0, w))
                else w).deleted
      by_test false h = absurd (ground (arith, h))
      by_test true h =
          rw (count_host-deleted d.name (sweep_entries cutoff d.name d.entries (0, w)))
            (entries-deletes d.name d.entries (0, w) e i due gone)

  dir_step_sound :
      (d : HostDir) (w : Swept) (x : Text × Entry)
      → IsIn x (dir_step d w).deleted
      → IsIn x w.deleted ⊎ (is_due cutoff x.1 ≡ true)
  unfolding dir_step
  dir_step_sound d w x = by_test d.is_dir
    where
      by_test :
          (b : Bool)
          → IsIn x
              (if b
                then count_host d.name (sweep_entries cutoff d.name d.entries (0, w))
                else w).deleted
          → IsIn x w.deleted ⊎ (is_due cutoff x.1 ≡ true)
      by_test false h = inl h
      by_test true h =
          entries_sound d.name d.entries (0, w) x
            (subst (IsIn x)
              (count_host-deleted d.name (sweep_entries cutoff d.name d.entries (0, w))) h)

  dirs-keeps :
      (ds : List HostDir) (w : Swept) (x : Text × Entry)
      → IsIn x w.deleted
      → IsIn x (sweep_dirs cutoff ds w).deleted
  unfolding sweep_dirs dir_step
  dirs-keeps [] w x h = h
  dirs-keeps (d ∷ ds) w x h = dirs-keeps ds _ x (dir_step-keeps d w x h)

  pub dirs_sound :
      (ds : List HostDir) (w : Swept) (x : Text × Entry)
      → IsIn x (sweep_dirs cutoff ds w).deleted
      → IsIn x w.deleted ⊎ (is_due cutoff x.1 ≡ true)
  unfolding sweep_dirs dir_step
  dirs_sound [] w x h = inl h
  dirs_sound (d ∷ ds) w x h = elim (dirs_sound ds _ x h) [
    | inl before ↦ dir_step_sound d w x before
    | inr due ↦ inr due
  ]

  pub dirs-deletes :
      (ds : List HostDir) (w : Swept) (d : HostDir) (e : Entry)
      → IsIn d ds
      → d.is_dir ≡ true
      → IsIn e d.entries
      → is_due cutoff e ≡ true
      → e.unlinks ≡ true
      → IsIn (d.name, e) (sweep_dirs cutoff ds w).deleted
  unfolding sweep_dirs dir_step
  dirs-deletes [] w d e h is_dir i due gone = absurd h
  dirs-deletes (c ∷ ds) w d e (inr h) is_dir i due gone = dirs-deletes ds _ d e h is_dir i due gone
  dirs-deletes (c ∷ ds) w d e (inl same) is_dir i due gone =
      dirs-keeps ds _ (d.name, e)
        (subst (λ z. IsIn (d.name, e) (dir_step z w).deleted) same
          (dir_step-deletes d w e is_dir i due gone))
