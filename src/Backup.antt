-- ===== src/Backup.antt =====
-- Backups on a schedule: backend/app/services/backup_schedule.py and backend/app/models/backup_schedule.py.
-- Instants are in UTC, with the time of the day in microseconds; those after the year 9999 are not
-- modelled. The API admits no negative number.
pub mod Calendar
pub mod Cadence
pub mod Next
pub mod Monthly
pub mod Runs
pub mod Api
pub mod Accepted
pub mod Poll
pub mod Prune
pub mod Selected
pub mod Pruned
mod Tests
use rotsy.Base.{
  ℕ, zero, suc, ◌+◌, ◌-◌, ◌*◌, ◌/◌, ◌%◌, Bool, true, false, not, Option, none, some, Text, ltb, leb,
  ◌==◌, if◌then◌else◌,
}

pub record DateTime : Type 0 where
  pub year : ℕ
  pub month : ℕ
  pub day : ℕ
  pub clock : ℕ

pub record BackupSchedule : Type 0 where
  pub id : ℕ
  pub frequency : Text
  pub time_of_day : Option Text
  pub day_of_week : Option ℕ
  pub day_of_month : Option ℕ
  pub cron_expression : Option Text
  pub retention_keep_last : Option ℕ
  pub retention_max_age_days : Option ℕ
  pub enabled : Bool
  pub last_run_at : Option DateTime
  pub next_run_at : Option DateTime

-- The calendar of the `datetime` and `calendar` modules.
unfoldable pub is_leap : ℕ → Bool
is_leap year =
    if not (year % 4 == 0) then false else if not (year % 100 == 0) then true else year % 400 == 0

-- `calendar.monthrange(year, month)[1]`
unfoldable pub days_in_month : ℕ → ℕ → ℕ
unfolding is_leap
days_in_month year month =
    if month == 2
    then if is_leap year then 29 else 28
    else if month == 4
    then 30
    else if month == 6
    then 30
    else if month == 9
    then 30
    else if month == 11
    then 30
    else 31

unfoldable pub days_before_month : ℕ → ℕ → ℕ
unfolding days_in_month
days_before_month year zero = 0
days_before_month year (suc zero) = 0
days_before_month year (suc (suc month)) =
    days_before_month year (suc month) + days_in_month year (suc month)

unfoldable pub days_before_year : ℕ → ℕ
days_before_year year = let past = year - 1 in past * 365 + past / 4 - past / 100 + past / 400

-- `toordinal`
unfoldable pub ordinal : DateTime → ℕ
unfolding days_before_year days_before_month
ordinal t = days_before_year t.year + days_before_month t.year t.month + t.day

-- `weekday`, from Monday.
unfoldable pub weekday : DateTime → ℕ
unfolding ordinal
weekday t = (ordinal t + 6) % 7

abbrev pub day_length : ℕ
day_length = 86400000000

-- The microseconds of an instant: the order of instants is theirs.
unfoldable pub stamp : DateTime → ℕ
unfolding ordinal
stamp t = ordinal t * day_length + t.clock

unfoldable pub next_day : DateTime → DateTime
unfolding days_in_month
next_day t =
    if ltb t.day (days_in_month t.year t.month)
    then record t { day = suc t.day }
    else if ltb t.month 12
    then record t { month = suc t.month; day = 1 }
    else record t { year = suc t.year; month = 1; day = 1 }

-- `t + timedelta(days=n)`
unfoldable pub add_days : ℕ → DateTime → DateTime
unfolding next_day
add_days zero t = t
add_days (suc n) t = add_days n (next_day t)
