-- ===== src/Backup/Api.antt =====
-- What the API accepts as a schedule, and the schedule that it makes of it: `BackupScheduleBase` and
-- `create_backup_schedule` of backend/app/routers/system.py. `is_valid` is croniter's, and `safe` is
-- whether `safe_repo_dirname` takes a name.
use rotsy.Base.{
  ℕ, Bool, true, false, not, ◌&&◌, ◌||◌, Option, none, some, List, [], ◌∷◌, Text, text, text_eq,
  has_text, non_empty, leb, ltb, if◌then◌else◌, all, length,
}
use rotsy.Backup.{DateTime, BackupSchedule}
use rotsy.Backup.Cadence.{parse_time_of_day, compute_next_run}

pub record ScheduleBody : Type 0 where
  pub name : Text
  pub mode : Text
  pub repos : Option (List Text)
  pub frequency : Text
  pub time_of_day : Option Text
  pub day_of_week : Option ℕ
  pub day_of_month : Option ℕ
  pub cron_expression : Option Text
  pub retention_keep_last : Option ℕ
  pub retention_max_age_days : Option ℕ
  pub enabled : Bool

abbrev pub in_range : ℕ → ℕ → Option ℕ → Bool
in_range lo hi none = true
in_range lo hi (some n) = leb lo n && leb n hi

abbrev pub is_given : {A : Type 0} → Option A → Bool
is_given none = false
is_given (some x) = true

-- The limits of the fields.
unfoldable pub fields_valid : ScheduleBody → Bool
fields_valid body =
    leb 1 (length body.name)
    && leb (length body.name) 128
    && in_range 0 6 body.day_of_week
    && in_range 1 31 body.day_of_month
    && (elim body.cron_expression [ none ↦ true | some e ↦ leb (length e) 128 ])
    && (elim body.retention_max_age_days [ none ↦ true | some days ↦ leb 1 days ])

-- `_validate_repos`
unfoldable pub repos_valid : (Text → Bool) → ScheduleBody → Bool
repos_valid safe body =
    has_text body.mode (text "full" ∷ text "selective" ∷ []) && (elim body.repos [
      | none ↦ not (text_eq body.mode (text "selective"))
      | some [] ↦ not (text_eq body.mode (text "selective"))
      | some (r ∷ repos) ↦ all safe (r ∷ repos)
    ])

abbrev fits_integer : Option ℕ → Bool
fits_integer none = true
fits_integer (some n) = ltb n 2147483648

-- Whether `String(5)` takes the time of the day and `Integer` the two limits of the retention; the
-- validator bounds the other columns.
unfoldable pub columns_fit : ScheduleBody → Bool
columns_fit body =
    (elim body.time_of_day [ none ↦ true | some t ↦ leb (length t) 5 ])
    && fits_integer body.retention_keep_last
    && fits_integer body.retention_max_age_days

module _ (int_of : Text → Option ℕ) where
  -- `_validate_time_of_day`
  unfoldable pub time_valid : ScheduleBody → Bool
  time_valid body =
      (elim (parse_time_of_day int_of body.time_of_day) [
        | none ↦ false
        | some (hour, minute) ↦ leb hour 23 && leb minute 59
      ])
      && (not (text_eq body.frequency (text "weekly")) || is_given body.day_of_week)
      && (not (text_eq body.frequency (text "monthly")) || is_given body.day_of_month)

  -- `_validate`, with the limits of the fields.
  unfoldable pub accepts : (Text → Bool) → (Text → Bool) → ScheduleBody → Bool
  accepts is_valid safe body =
      fields_valid body
      && repos_valid safe body
      && has_text body.frequency (text "daily" ∷ text "weekly" ∷ text "monthly" ∷ text "cron" ∷ [])
      && (if text_eq body.frequency (text "cron")
          then elim (non_empty body.cron_expression) [ none ↦ false | some e ↦ is_valid e ]
          else time_valid body)

  -- The row of a body, before its next run is known.
  abbrev pub row : ℕ → ScheduleBody → BackupSchedule
  row id body = record {
    id = id;
    frequency = body.frequency;
    time_of_day = body.time_of_day;
    day_of_week = body.day_of_week;
    day_of_month = body.day_of_month;
    cron_expression = body.cron_expression;
    retention_keep_last = body.retention_keep_last;
    retention_max_age_days = body.retention_max_age_days;
    enabled = body.enabled;
    last_run_at = none;
    next_run_at = none;
  }

  -- `create_backup_schedule`: `none` where the body is refused, no next run can be computed, or the
  -- commit raises for a value that its column does not take.
  unfoldable pub create_backup_schedule :
      (Text → Bool)
      → (Text → Bool)
      → (Text → DateTime → Option DateTime)
      → ℕ
      → DateTime
      → ScheduleBody
      → Option BackupSchedule
  create_backup_schedule is_valid safe next_cron id now body =
      if accepts is_valid safe body
      then elim (compute_next_run int_of next_cron (row id body) now) [
        | none ↦ none
        | some t ↦
            if columns_fit body then some (record (row id body) { next_run_at = some t }) else none
      ]
      else none
