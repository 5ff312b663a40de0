-- ===== src/Backup/Prune.antt =====
-- `prune_old_archives` of backend/app/services/backup_schedule.py, with the rows of
-- backend/app/models/backup.py that it reads. Instants are microseconds since the start of the
-- year 1. The database's order by `finished_at` is a parameter.
use rotsy.Base.{
  ℕ, ◌-◌, ◌*◌, Bool, true, false, not, ◌&&◌, Option, none, some, List, [], ◌∷◌, Text, text, text_eq,
  Dict, lookup, insert, nat_eq, leb, ltb, if◌then◌else◌, ◌==◌, length, drop, keep_if,
}
use rotsy.Backup.{BackupSchedule, day_length}

pub record BackupRun : Type 0 where
  pub id : ℕ
  pub status : Text
  pub output_path : Text
  pub finished_at : Option ℕ
  pub schedule_id : Option ℕ

-- `now - timedelta(days=days)`: `none` where it raises `OverflowError`, before the year 1. A `timedelta`
-- of more than 999999999 days, which raises too, reaches before it from every instant.
unfoldable pub cutoff_of : ℕ → ℕ → Option ℕ
cutoff_of now days = if leb (days * day_length) now then some (now - days * day_length) else none

-- `finished_at < cutoff`, of a run that finished.
abbrev pub is_old : ℕ → BackupRun → Bool
is_old cutoff run = elim run.finished_at [ none ↦ false | some finished ↦ ltb finished cutoff ]

abbrev pub add_runs : List BackupRun → Dict ℕ BackupRun → Dict ℕ BackupRun
add_runs [] to_delete = to_delete
add_runs (run ∷ runs) to_delete = add_runs runs (insert run.id run to_delete)

-- The rule of the number of runs.
abbrev pub add_last : List BackupRun → Option ℕ → Dict ℕ BackupRun → Dict ℕ BackupRun
add_last rows none old = old
add_last rows (some keep) old = add_runs (drop keep rows) old

-- `_select_for_deletion`: `none` where the cutoff raises.
unfoldable pub select_for_deletion : List BackupRun → BackupSchedule → ℕ → Option (Dict ℕ BackupRun)
unfolding cutoff_of
select_for_deletion rows schedule now = elim schedule.retention_max_age_days [
  | none ↦ some (add_last rows schedule.retention_keep_last [])
  | some days ↦ elim (cutoff_of now days) [
    | none ↦ none
    | some cutoff ↦
        some
          (add_last rows schedule.retention_keep_last (add_runs (keep_if (is_old cutoff) rows) []))
  ]
]

-- `_delete_archive_path`, on the paths that are there.
abbrev pub delete_archive_path : BackupRun → List Text → List Text
delete_archive_path run archives = elim run.output_path [
  | [] ↦ archives
  | c ∷ path ↦ keep_if (λ p. not (text_eq p (c ∷ path))) archives
]

abbrev pub delete_archives : Dict ℕ BackupRun → List Text → List Text
delete_archives [] archives = archives
delete_archives ((id, run) ∷ to_delete) archives =
    delete_archives to_delete (delete_archive_path run archives)

-- The condition of the query.
abbrev pub is_own : BackupSchedule → BackupRun → Bool
is_own schedule run =
    (elim run.schedule_id [ none ↦ false | some id ↦ id == schedule.id ])
    && text_eq run.status (text "success")

-- The row is one of those to delete.
abbrev pub is_selected : Dict ℕ BackupRun → BackupRun → Bool
is_selected to_delete run = elim (lookup run.id to_delete) [ none ↦ false | some _ ↦ true ]

-- How many are deleted, with the rows and the archives that are left, once the runs are selected.
abbrev pub delete_selected :
    List BackupRun → List Text → Dict ℕ BackupRun → ℕ × List BackupRun × List Text
delete_selected runs archives to_delete = (
  length to_delete,
  keep_if (λ run. not (is_selected to_delete run)) runs,
  delete_archives to_delete archives,
)

-- `prune_old_archives`: `none` where it raises, before anything is deleted.
unfoldable pub prune_old_archives :
    (List BackupRun → List BackupRun)
    → BackupSchedule
    → ℕ
    → List BackupRun
    → List Text
    → Option (ℕ × List BackupRun × List Text)
unfolding select_for_deletion
prune_old_archives newest_first schedule now runs archives =
    let pruned : Option (ℕ × List BackupRun × List Text) =
      elim (select_for_deletion (newest_first (keep_if (is_own schedule) runs)) schedule now) [
        | none ↦ none
        | some to_delete ↦ some (delete_selected runs archives to_delete)
      ] in
    elim schedule.retention_keep_last [
      | some _ ↦ pruned
      | none ↦ elim schedule.retention_max_age_days [
        | some _ ↦ pruned
        | none ↦ some (0, runs, archives)
      ]
    ]
