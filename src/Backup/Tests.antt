-- ===== src/Backup/Tests.antt =====
-- Schedules, polls and prunings on small tables, and the theorems at concrete inputs.
use rotsy.Base.{
  Bool, true, false, ℕ, ◌+◌, ◌-◌, ◌*◌, split_on, ◌≡◌, refl, true, false, Option, none, some, List,
  [], ◌∷◌, ◌++◌, map, Text, text, length, keep_if, All, arith,
}
use rotsy.Backup.{
  DateTime, BackupSchedule, days_in_month, weekday, ordinal, stamp, is_leap, days_before_month,
  days_before_year, day_length,
}
use rotsy.Backup.Calendar.{IsValid}
use rotsy.Backup.Cadence.{
  clock_of, at_time, next_weekly, build, next_monthly, parse_time_of_day, compute_next_run,
}
use rotsy.Backup.Next.{IsAfter, FallsOn}
use rotsy.Backup.Runs.{InWeek, next_weekly-FallsOn}
use rotsy.Backup.Poll.{backup_job, is_due, poll_due_schedules, poll_due_schedules-once}
use rotsy.Backup.Prune.{BackupRun, cutoff_of, select_for_deletion, prune_old_archives}
use rotsy.Backup.Pruned.{IsPruned, prune_old_archives-IsPruned}
use rotsy.Backup.Api.{
  ScheduleBody, fields_valid, repos_valid, time_valid, accepts, columns_fit, row,
  create_backup_schedule,
}
use rotsy.Backup.Accepted.{create_backup_schedule-IsAfter}
use rotsy.Jobs.{Board}

abbrev moment : ℕ → ℕ → ℕ → ℕ → ℕ → DateTime
moment year month day hour minute = record {
  year = year;
  month = month;
  day = day;
  clock = clock_of hour minute;
}

-- `int` on texts of two ASCII digits.
abbrev digits : Text → Option ℕ
digits (tens ∷ ones ∷ []) = some ((tens - 48) * 10 + (ones - 48))
digits _ = none

abbrev no_cron : Text → DateTime → Option DateTime
no_cron expression after = none

no_cron_later : (e : Text) (after t : DateTime) → no_cron e after ≡ some t → IsAfter after t
no_cron_later e after t h = cc

abbrev monthly : BackupSchedule
monthly = record {
  id = 5;
  frequency = text "monthly";
  time_of_day = some (text "02:30");
  day_of_week = none;
  day_of_month = some 31;
  cron_expression = none;
  retention_keep_last = some 1;
  retention_max_age_days = some 30;
  enabled = true;
  last_run_at = none;
  next_run_at = some (moment 2024 1 31 2 30);
}

-- 2024-01-31 is a Wednesday.
wednesday : weekday (moment 2024 1 31 4 0) ≡ 2
unfolding weekday ordinal days_before_year days_before_month days_in_month is_leap
wednesday = refl

-- The last day of a February of a leap year.
clamped :
    compute_next_run digits no_cron monthly (moment 2024 1 31 2 30) ≡ some (moment 2024 2 29 2 30)
unfolding compute_next_run next_monthly build at_time parse_time_of_day stamp ordinal
    days_before_year days_before_month days_in_month is_leap split_on
clamped = refl

IsValid-moment : IsValid (moment 2024 1 31 2 30)
unfolding days_in_month
IsValid-moment = (omega arith, omega arith, omega arith, omega arith, omega arith, omega arith)

next_weekly-FallsOn_example :
    (t : DateTime) × (next_weekly (moment 2024 1 31 2 30) 2 30 2 ≡ some t)
    × FallsOn (moment 2024 1 31 2 30) 2 (clock_of 2 30) t
next_weekly-FallsOn_example =
    next_weekly-FallsOn (moment 2024 1 31 2 30) 2 30 2 IsValid-moment (omega arith) (omega arith)
      (omega arith)

no_week : InWeek monthly
no_week day h = cc

abbrev no_jobs : Board
no_jobs = record { jobs = []; events = []; index = []; queue = []; sleeping = [] }

abbrev job_ids : ℕ → Option Text
job_ids id = some (text "a1")

answered : (id : ℕ) → (job_id : Text) × (job_ids id ≡ some job_id)
answered id = (text "a1", refl)

poll_due_schedules-once_example :
    let (enqueued, kept, board) =
      poll_due_schedules digits no_cron job_ids
        (moment 2024 1 31 2 30)
        1706668200
        (monthly ∷ [])
        no_jobs in
    (length enqueued ≡ length (keep_if (is_due (moment 2024 1 31 2 30)) (monthly ∷ [])))
    × (board.queue ≡ [] ++ map (λ id. (id, backup_job)) enqueued)
    × All (λ schedule. is_due (moment 2024 1 31 2 30) schedule ≡ false) kept
    × ((b : Board)
        → (poll_due_schedules digits no_cron job_ids (moment 2024 1 31 2 30) 1706668200 kept b).0
          ≡ [])
poll_due_schedules-once_example =
    poll_due_schedules-once digits no_cron no_cron_later job_ids (moment 2024 1 31 2 30) 1706668200
      (monthly ∷ []) no_jobs answered IsValid-moment (no_week, tt)

abbrev run : ℕ → Option ℕ → Option ℕ → BackupRun
run id schedule_id finished_at = record {
  id = id;
  status = text "success";
  output_path = text "a";
  finished_at = finished_at;
  schedule_id = schedule_id;
}

-- Two runs of the schedule and a manual one.
abbrev runs : List BackupRun
runs =
    run 1 (some 5) (some (30 * day_length)) ∷ run 2 none (some 800) ∷ run 3 (some 5) (some 700) ∷ []

abbrev long_past : ℕ
long_past = 40 * day_length

pruned :
    prune_old_archives (λ rows. rows) monthly long_past runs []
    ≡ some (1, run 1 (some 5) (some (30 * day_length)) ∷ run 2 none (some 800) ∷ [], [])
unfolding prune_old_archives select_for_deletion cutoff_of
pruned = refl

prune_old_archives-IsPruned_example :
    IsPruned monthly long_past runs
      (run 3 (some 5) (some 700))
      (prune_old_archives (λ rows. rows) monthly long_past runs [])
prune_old_archives-IsPruned_example =
    prune_old_archives-IsPruned (λ rows. rows) (λ p rows. refl) monthly long_past runs []
      (run 1 (some 5) (some (30 * day_length)) ∷ []) [] (run 3 (some 5) (some 700)) (omega arith)
      refl (refl, tt) tt refl refl ((λ h. cc), ((λ h. refl), ((λ h. cc), tt)))

-- An age that reaches before the year 1 raises, and nothing is pruned, also not by the number.
age_out_of_range :
    prune_old_archives
      (λ rows. rows)
      (record monthly { retention_max_age_days = some 800000 })
      long_past
      runs
      []
    ≡ none
unfolding prune_old_archives select_for_deletion cutoff_of
age_out_of_range = refl

abbrev any_text : Text → Bool
any_text t = true

abbrev monthly_body : ScheduleBody
monthly_body = record {
  name = text "nightly";
  mode = text "full";
  repos = none;
  frequency = text "monthly";
  time_of_day = some (text "02:30");
  day_of_week = none;
  day_of_month = some 31;
  cron_expression = none;
  retention_keep_last = some 1;
  retention_max_age_days = some 30;
  enabled = true;
}

body_accepted : accepts digits any_text any_text monthly_body ≡ true
unfolding accepts fields_valid repos_valid time_valid parse_time_of_day split_on
body_accepted = refl

-- A selective backup of nothing is refused.
nothing_selected :
    accepts digits any_text any_text (record monthly_body { mode = text "selective" }) ≡ false
unfolding accepts fields_valid repos_valid time_valid parse_time_of_day split_on
nothing_selected = refl

body_fits : columns_fit monthly_body ≡ true
unfolding columns_fit
body_fits = refl

-- The validator takes a time of the day of six characters, and the column does not.
abbrev long_time : ScheduleBody
long_time = record monthly_body { time_of_day = some (text "002:30") }

abbrev three_digits : Text → Option ℕ
three_digits [] = none
three_digits (hundreds ∷ rest) = digits rest

abbrev two_or_three : Text → Option ℕ
two_or_three t = elim (digits t) [ none ↦ three_digits t | some n ↦ some n ]

long_time_is_lost :
    (accepts two_or_three any_text any_text long_time ≡ true)
    × (create_backup_schedule two_or_three any_text any_text no_cron 5
          (moment 2024 1 31 2 30)
          long_time
        ≡ none)
unfolding create_backup_schedule columns_fit accepts fields_valid repos_valid time_valid
    parse_time_of_day split_on compute_next_run next_monthly
long_time_is_lost = (refl, refl)

create_backup_schedule-IsAfter_example :
    (t : DateTime) × (create_backup_schedule digits any_text any_text no_cron 5
        (moment 2024 1 31 2 30)
        monthly_body
      ≡ some (record (row digits 5 monthly_body) { next_run_at = some t }))
    × IsAfter (moment 2024 1 31 2 30) t
create_backup_schedule-IsAfter_example =
    create_backup_schedule-IsAfter digits no_cron no_cron_later any_text any_text 5
      (moment 2024 1 31 2 30) monthly_body IsValid-moment body_accepted refl body_fits
