-- ===== src/Backup/Selected.antt =====
-- Which runs the pruning of a schedule's archives selects.
use rotsy.Base.{
  ℕ, zero, suc, ◌-◌, ◌*◌, ◌≤◌, ◌≡◌, refl, subst, ap, ◌∙◌, inl, inr, Bool, true, false, ◌||◌, Option,
  none, some, List, [], ◌∷◌, ◌++◌, Dict, lookup-insert, insert, nat_eq, leb, ltb, ◌==◌, ==_iff,
  length, any, drop, keep_if, All, arith, Option-cases,
}
use rotsy.Backup.{BackupSchedule, day_length}
use rotsy.Backup.Prune.{
  BackupRun, cutoff_of, is_old, add_runs, add_last, select_for_deletion, is_selected,
}

-- The run has the id of the first.
abbrev pub same_id : BackupRun → BackupRun → Bool
same_id run r = r.id == run.id

is_selected-add_runs :
    (rows : List BackupRun) (to_delete : Dict ℕ BackupRun) (run : BackupRun)
    → is_selected (add_runs rows to_delete) run
      ≡ (any (same_id run) rows || is_selected to_delete run)
is_selected-add_runs [] to_delete run = refl
is_selected-add_runs (r ∷ rows) to_delete run = ground (
  arith,
  is_selected-add_runs rows (insert r.id r to_delete) run,
  lookup-insert r.id run.id r to_delete,
)

-- The cutoff of the age is no earlier than the year 1.
abbrev pub InRange : ℕ → Option ℕ → Type 0
InRange now none = Unit
InRange now (some days) = days * day_length ≤ now

abbrev pub by_age : ℕ → List BackupRun → BackupRun → Option ℕ → Bool
by_age now rows run none = false
by_age now rows run (some days) =
    any (same_id run) (keep_if (is_old (now - days * day_length)) rows)

abbrev pub by_number : List BackupRun → BackupRun → Option ℕ → Bool
by_number rows run none = false
by_number rows run (some keep) = any (same_id run) (drop keep rows)

numbered-is_selected :
    (rows : List BackupRun) (old : Dict ℕ BackupRun) (run : BackupRun) (keep : Option ℕ)
    → is_selected (add_last rows keep old) run ≡ (by_number rows run keep || is_selected old run)
numbered-is_selected rows old run none = refl
numbered-is_selected rows old run (some keep) = is_selected-add_runs (drop keep rows) old run

or_false : (b : Bool) → (b || false) ≡ b
or_false b = ground arith

-- What is selected, where the cutoff is in range: by the number, or by the age.
pub select-chosen :
    (rows : List BackupRun) (schedule : BackupSchedule) (now : ℕ)
    → InRange now schedule.retention_max_age_days
    → (d : Dict ℕ BackupRun) × (select_for_deletion rows schedule now ≡ some d)
      × ((run : BackupRun)
          → is_selected d run ≡ (
              by_number rows run schedule.retention_keep_last
              || by_age now rows run schedule.retention_max_age_days))
unfolding select_for_deletion cutoff_of
select-chosen rows schedule now h = elim (Option-cases schedule.retention_max_age_days) [
  | inl e ↦ (
    add_last rows schedule.retention_keep_last [],
    rw (e, select_for_deletion) refl,
    (λ run. rw e (numbered-is_selected rows [] run schedule.retention_keep_last)),
  )
  | inr (days, e) ↦
      let old = add_runs (keep_if (is_old (now - days * day_length)) rows) [] in
      let range : leb (days * day_length) now ≡ true = ground (arith, subst (InRange now) e h) in
      (
        add_last rows schedule.retention_keep_last old,
        rw (e, range, select_for_deletion) refl,
        (λ run. rw e (
            numbered-is_selected rows old run schedule.retention_keep_last
            ∙ ap (λ b. by_number rows run schedule.retention_keep_last || b)
                (is_selected-add_runs (keep_if (is_old (now - days * day_length)) rows) [] run
                  ∙ or_false
                      (any (same_id run) (keep_if (is_old (now - days * day_length)) rows))))),
      )
]

module _ {A : Type 0} (p : A → Bool) where
  pub any-length : (xs : List A) → any p xs ≡ ltb 0 (length (keep_if p xs))
  any-length [] = refl
  any-length (x ∷ xs) = ground (arith, any-length xs)

  any-drop : (n : ℕ) (xs : List A) → any p xs ≡ false → any p (drop n xs) ≡ false
  any-drop zero xs h = h
  any-drop (suc n) [] h = h
  any-drop (suc n) (x ∷ xs) h = ground (arith, any-drop n xs, h)

  any-keep_if : (q : A → Bool) (xs : List A) → any p xs ≡ false → any p (keep_if q xs) ≡ false
  any-keep_if q [] h = h
  any-keep_if q (x ∷ xs) h = ground (arith, any-keep_if q xs, h)

  pub any-there : (xs ys : List A) (y : A) → p y ≡ true → any p (xs ++ (y ∷ ys)) ≡ true
  any-there [] ys y h = ground (arith, h)
  any-there (x ∷ xs) ys y h = ground (arith, any-there xs ys y h)

  pub keep_if-among : (q : A → Bool) (xs : List A) → any p (keep_if q xs) ≡ true → any p xs ≡ true
  keep_if-among q [] h = h
  keep_if-among q (x ∷ xs) h = ground (arith, keep_if-among q xs, h)

  -- What passes the test stands before an element that fails it, and nothing after it.
  pub length-keep_if_split :
      (before after : List A) (x : A)
      → All (λ y. p y ≡ true) before
      → p x ≡ false
      → All (λ y. p y ≡ false) after
      → length (keep_if p (before ++ (x ∷ after))) ≡ length before
  length-keep_if_split [] after x b h a = ground (arith, h, none_pass after a)
    where
      none_pass : (ys : List A) → All (λ y. p y ≡ false) ys → length (keep_if p ys) ≡ 0
      none_pass [] k = refl
      none_pass (y ∷ ys) (e, k) = ground (arith, e, none_pass ys k)
  length-keep_if_split (b ∷ bs) after x (e, rest) h a =
      ground (arith, e, length-keep_if_split bs after x rest h a)

own_id : (run : BackupRun) → same_id run run ≡ true
own_id run = (==_iff run.id run.id).1 refl

-- A run with an id of its own is selected by the number where so many stand before it.
number-split :
    (keep : ℕ) (run : BackupRun) (before after : List BackupRun)
    → any (same_id run) after ≡ false
    → any (same_id run) (drop keep (before ++ (run ∷ after))) ≡ leb keep (length before)
number-split zero run before after h =
    any-there (same_id run) before after run (own_id run) ∙ ground arith
number-split (suc keep) run [] after h = any-drop (same_id run) keep after h ∙ ground arith
number-split (suc keep) run (b ∷ before) after h =
    number-split keep run before after h ∙ ground arith

age-split :
    (q : BackupRun → Bool) (run : BackupRun) (before after : List BackupRun)
    → any (same_id run) before ≡ false
    → any (same_id run) after ≡ false
    → any (same_id run) (keep_if q (before ++ (run ∷ after))) ≡ q run
age-split q run [] after b h = ground (arith, own_id run, any-keep_if (same_id run) q after h)
age-split q run (x ∷ before) after b h = ground (arith, age-split q run before after, b, h)

-- The run is over the number of runs to keep, where so many are later, or over the age.
abbrev pub is_over : ℕ → BackupRun → Option ℕ → Bool
is_over later run none = false
is_over later run (some keep) = leb keep later

abbrev pub is_aged : ℕ → BackupRun → Option ℕ → Bool
is_aged now run none = false
is_aged now run (some days) = is_old (now - days * day_length) run

by_number-split :
    (run : BackupRun) (before after : List BackupRun) (keep : Option ℕ)
    → any (same_id run) after ≡ false
    → by_number (before ++ (run ∷ after)) run keep ≡ is_over (length before) run keep
by_number-split run before after none h = refl
by_number-split run before after (some keep) h = number-split keep run before after h

by_age-split :
    (now : ℕ) (run : BackupRun) (before after : List BackupRun) (days : Option ℕ)
    → any (same_id run) before ≡ false
    → any (same_id run) after ≡ false
    → by_age now (before ++ (run ∷ after)) run days ≡ is_aged now run days
by_age-split now run before after none b h = refl
by_age-split now run before after (some days) b h =
    age-split (is_old (now - days * day_length)) run before after b h

pub chosen-split :
    (now : ℕ) (run : BackupRun) (before after : List BackupRun) (keep days : Option ℕ)
    → any (same_id run) before ≡ false
    → any (same_id run) after ≡ false
    → (by_number (before ++ (run ∷ after)) run keep
        || by_age now (before ++ (run ∷ after)) run days)
      ≡ (is_over (length before) run keep || is_aged now run days)
chosen-split now run before after keep days b h =
    rw (by_number-split run before after keep h, by_age-split now run before after days b h) refl

-- No run is selected whose id none of the rows has.
pub unchosen :
    (now : ℕ) (run : BackupRun) (rows : List BackupRun) (keep days : Option ℕ)
    → any (same_id run) rows ≡ false
    → (by_number rows run keep || by_age now rows run days) ≡ false
unchosen now run rows none none h = refl
unchosen now run rows (some keep) none h = ground (arith, any-drop (same_id run) keep rows h)
unchosen now run rows none (some days) h =
    any-keep_if (same_id run) (is_old (now - days * day_length)) rows h
unchosen now run rows (some keep) (some days) h = ground (
  arith,
  any-drop (same_id run) keep rows h,
  any-keep_if (same_id run) (is_old (now - days * day_length)) rows h,
)
