-- ===== src/Backup/Pruned.antt =====
-- What the pruning of a schedule's archives leaves.
use rotsy.Base.{
  ℕ, ◌≡◌, refl, sym, subst, ap, ◌∙◌, inl, inr, Bool, true, false, not, ◌&&◌, ◌||◌, Option, none,
  some, List, [], ◌∷◌, ◌++◌, Text, Dict, nat_eq, ltb, ==_iff, length, any, keep_if, All, All-map,
  arith, Option-cases, Bool-cases,
}
use rotsy.Backup.{BackupSchedule}
use rotsy.Backup.Prune.{
  BackupRun, select_for_deletion, delete_selected, is_own, is_selected, prune_old_archives,
}
use rotsy.Backup.Selected.{
  same_id, InRange, select-chosen, any-length, any-there, keep_if-among, length-keep_if_split,
  is_over, is_aged, by_number, by_age, chosen-split, unchosen,
}

-- Both runs have finished, the second after the first.
abbrev later_than : Option ℕ → Option ℕ → Bool
later_than none b = false
later_than (some a) none = false
later_than (some a) (some b) = ltb a b

abbrev pub is_later : BackupRun → BackupRun → Bool
is_later run r = later_than run.finished_at r.finished_at

-- The run is left unless as many successful runs of the schedule as it keeps are later, or it is over
-- the age, each where the rule is set; and every run is left that is no successful one of the schedule.
abbrev pub IsPruned :
    BackupSchedule
    → ℕ
    → List BackupRun
    → BackupRun
    → Option (ℕ × List BackupRun × List Text)
    → Type 0
IsPruned schedule now runs run none = ⊥
IsPruned schedule now runs run (some (n, left, archives)) =
    (any (same_id run) left
      ≡ not (
          is_over (length (keep_if (is_later run) (keep_if (is_own schedule) runs))) run
            schedule.retention_keep_last
          || is_aged now run schedule.retention_max_age_days))
    × (keep_if (λ r. not (is_own schedule r)) left ≡ keep_if (λ r. not (is_own schedule r)) runs)

-- No other run shares its id with a run of the schedule.
abbrev pub IdsApart : BackupSchedule → List BackupRun → Type 0
IdsApart schedule runs =
    All (λ r. is_own schedule r ≡ false → any (same_id r) (keep_if (is_own schedule) runs) ≡ false)
      runs

keep_if_all : {A : Type 0} (xs : List A) → keep_if (λ x. true) xs ≡ xs
keep_if_all [] = refl
keep_if_all (x ∷ xs) = ap (λ t. x ∷ t) (keep_if_all xs)

-- Whether an id is selected does not depend on the run that has it.
same-selected :
    (d : Dict ℕ BackupRun) (run r : BackupRun)
    → same_id run r ≡ true
    → is_selected d r ≡ is_selected d run
same-selected d run r h =
    let e : r.id ≡ run.id = (==_iff r.id run.id).0 h in
    ap (λ id. is_selected d (record r { id = id })) e

left-any :
    (d : Dict ℕ BackupRun) (run : BackupRun) (runs : List BackupRun)
    → any (same_id run) (keep_if (λ r. not (is_selected d r)) runs)
      ≡ (not (is_selected d run) && any (same_id run) runs)
left-any d run [] = ground arith
left-any d run (r ∷ runs) = elim (Bool-cases (same_id run r)) [
  | inl e ↦ ground (arith, e, same-selected d run r e, left-any d run runs)
  | inr e ↦ ground (arith, e, left-any d run runs)
]

others-left :
    (own chosen : BackupRun → Bool) (runs : List BackupRun)
    → All (λ r. own r ≡ false → chosen r ≡ false) runs
    → keep_if (λ r. not (own r)) (keep_if (λ r. not (chosen r)) runs)
      ≡ keep_if (λ r. not (own r)) runs
others-left own chosen [] h = refl
others-left own chosen (r ∷ runs) (e, h) = ground (arith, e, others-left own chosen runs h)

and_true : (b : Bool) → (b && true) ≡ b
and_true b = ground arith

not_itself : (run : BackupRun) → is_later run run ≡ false
not_itself run = elim (Option-cases run.finished_at) [
  | inl e ↦ rw e refl
  | inr (at, e) ↦ rw e (ground arith)
]

module _ (newest_first : List BackupRun → List BackupRun)
    (rearranges : (p : BackupRun → Bool) (rows : List BackupRun)
      → length (keep_if p (newest_first rows)) ≡ length (keep_if p rows)) where
  any-newest_first :
      (p : BackupRun → Bool) (rows : List BackupRun) → any p (newest_first rows) ≡ any p rows
  any-newest_first p rows =
      any-length p (newest_first rows) ∙ (ap (ltb 0) (rearranges p rows) ∙ sym (any-length p rows))

  module _ (schedule : BackupSchedule) (now : ℕ) (runs : List BackupRun)
      (archives : List Text) where
    abbrev own : List BackupRun
    own = keep_if (is_own schedule) runs

    abbrev rows : List BackupRun
    rows = newest_first own

    -- What is selected is deleted, also where neither rule is set.
    pruned-selected :
        (d : Dict ℕ BackupRun)
        → select_for_deletion rows schedule now ≡ some d
        → prune_old_archives newest_first schedule now runs archives
          ≡ some (delete_selected runs archives d)
    unfolding prune_old_archives select_for_deletion
    pruned-selected d e = elim (Option-cases schedule.retention_keep_last) [
      | inr (keep, k) ↦ rw (k, e, prune_old_archives) refl
      | inl k ↦ elim (Option-cases schedule.retention_max_age_days) [
        | inr (days, f) ↦ rw (k, f, e, prune_old_archives) refl
        | inl f ↦
            let q : select_for_deletion rows schedule now ≡ some [] =
              rw (f, k, select_for_deletion) refl in
            let nothing : [] ≡ d = cc (q, e) in
            rw (k, f, prune_old_archives)
              (subst (λ t. some (0, runs, archives) ≡ some (delete_selected runs archives t))
                nothing (ap (λ t. some (0, t, archives)) (sym (keep_if_all runs))))
      ]
    ]

    -- A pruning whose cutoff is not before the year 1 leaves a successful run of the schedule exactly
    -- where fewer such runs than the schedule keeps finished later, and it is not over the age, each
    -- where the rule is set; and it leaves every run that is not such a run. This holds where the query
    -- gives before the run those that finished later, and only these, and no two runs share an id.
    pub prune_old_archives-IsPruned :
        (before after : List BackupRun) (run : BackupRun)
        → InRange now schedule.retention_max_age_days
        → rows ≡ before ++ (run ∷ after)
        → All (λ r. is_later run r ≡ true) before
        → All (λ r. is_later run r ≡ false) after
        → any (same_id run) before ≡ false
        → any (same_id run) after ≡ false
        → IdsApart schedule runs
        → IsPruned schedule now runs run
            (prune_old_archives newest_first schedule now runs archives)
    prune_old_archives-IsPruned before after run range e later sooner b a apart =
        let (d, chosen, selected) = select-chosen rows schedule now range in
        let count : length (keep_if (is_later run) own) ≡ length before =
          sym (rearranges (is_later run) own)
          ∙ (ap (λ t. length (keep_if (is_later run) t)) e
              ∙ length-keep_if_split (is_later run) before after run later (not_itself run)
                  sooner) in
        let among : any (same_id run) runs ≡ true =
          keep_if-among (same_id run) (is_own schedule) runs (
            sym (any-newest_first (same_id run) own)
            ∙ (ap (any (same_id run)) e
                ∙ any-there (same_id run) before after run ((==_iff run.id run.id).1 refl))) in
        let verdict : is_selected d run ≡ (
            is_over (length before) run schedule.retention_keep_last
            || is_aged now run schedule.retention_max_age_days) =
          subst
            (λ t. is_selected d run ≡ (
              by_number t run schedule.retention_keep_last
              || by_age now t run schedule.retention_max_age_days))
            e (selected run)
          ∙ chosen-split now run before after schedule.retention_keep_last
              schedule.retention_max_age_days b a in
        subst (IsPruned schedule now runs run) (sym (pruned-selected d chosen)) (
          left-any d run runs ∙ rw (among, verdict, count) (and_true _),
          others-left (is_own schedule) (is_selected d) runs (
              All-map
                (λ r h o.
                  selected r
                  ∙ unchosen now r rows schedule.retention_keep_last schedule.retention_max_age_days
                      (any-newest_first (same_id r) own ∙ h o))
                runs apart),
        )
