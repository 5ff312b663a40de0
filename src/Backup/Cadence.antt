-- ===== src/Backup/Cadence.antt =====
-- When a schedule runs next: `compute_next_run` of backend/app/services/backup_schedule.py, and
-- what it calls. `int_of` is Python's `int` on a text, and `next_cron` the `get_next` of a croniter;
-- each is `none` where it raises `ValueError`, and `int_of` where the number is negative, which
-- `datetime.replace` refuses with the same error.
use rotsy.Base.{
  ℕ, suc, ◌+◌, ◌-◌, ◌*◌, ◌%◌, min, ◌&&◌, Option, none, some, [], ◌∷◌, Text, text, text_eq,
  non_empty, split_on, ltb, leb, if◌then◌else◌,
}
use rotsy.Backup.{DateTime, BackupSchedule, days_in_month, weekday, stamp, add_days}

abbrev pub clock_of : ℕ → ℕ → ℕ
clock_of hour minute = hour * 3600000000 + minute * 60000000

-- `t.replace(hour=hour, minute=minute, second=0, microsecond=0)`
unfoldable pub at_time : ℕ → ℕ → DateTime → Option DateTime
at_time hour minute t =
    if ltb hour 24 && ltb minute 60 then some (record t { clock = clock_of hour minute }) else none

-- `_next_daily`
unfoldable pub next_daily : DateTime → ℕ → ℕ → Option DateTime
unfolding at_time stamp add_days
next_daily after hour minute = elim (at_time hour minute after) [
  | none ↦ none
  | some target ↦ some (if leb (stamp target) (stamp after) then add_days 1 target else target)
]

-- `_next_weekly`; a remainder of Python is not negative, so 7 is added before the subtraction.
unfoldable pub next_weekly : DateTime → ℕ → ℕ → ℕ → Option DateTime
unfolding at_time stamp add_days weekday
next_weekly after hour minute day_of_week = elim (at_time hour minute after) [
  | none ↦ none
  | some same_day ↦
      let days_ahead : ℕ = (day_of_week + 7 - weekday same_day) % 7 in
      let target : DateTime = add_days days_ahead same_day in
      some (if leb (stamp target) (stamp after) then add_days 7 target else target)
]

-- `build`, the closure of `_next_monthly`.
unfoldable pub build : ℕ → ℕ → ℕ → ℕ → ℕ → Option DateTime
unfolding at_time days_in_month
build hour minute day_of_month year month =
    let day = min day_of_month (days_in_month year month) in
    if leb 1 day
    then at_time hour minute (record { year = year; month = month; day = day; clock = 0 })
    else none

-- `_next_monthly`
unfoldable pub next_monthly : DateTime → ℕ → ℕ → ℕ → Option DateTime
unfolding build stamp
next_monthly after hour minute day_of_month =
    elim (build hour minute day_of_month after.year after.month) [
      | none ↦ none
      | some candidate ↦
          if leb (stamp candidate) (stamp after)
          then if ltb 12 (suc after.month)
            then build hour minute day_of_month (suc after.year) 1
            else build hour minute day_of_month after.year (suc after.month)
          else some candidate
    ]

module _ (int_of : Text → Option ℕ) where
  -- `_parse_time_of_day`
  unfoldable pub parse_time_of_day : Option Text → Option (ℕ × ℕ)
  parse_time_of_day value = elim (non_empty value) [
    | none ↦ none
    | some t ↦ elim (split_on 58 t) [
      | hh ∷ mm ∷ [] ↦ elim (int_of hh) [
        | none ↦ none
        | some hour ↦ elim (int_of mm) [ none ↦ none | some minute ↦ some (hour, minute) ]
      ]
      | _ ↦ none
    ]
  ]

  -- A cadence at a time of the day.
  abbrev at_time_of_day : Option Text → (ℕ → ℕ → Option DateTime) → Option DateTime
  at_time_of_day value next = elim (parse_time_of_day value) [
    | none ↦ none
    | some (hour, minute) ↦ next hour minute
  ]

  unfoldable pub compute_next_run :
      (Text → DateTime → Option DateTime) → BackupSchedule → DateTime → Option DateTime
  compute_next_run next_cron schedule after =
      if text_eq schedule.frequency (text "cron")
      then elim (non_empty schedule.cron_expression) [
        | none ↦ none
        | some expression ↦ next_cron expression after
      ]
      else if text_eq schedule.frequency (text "daily")
      then at_time_of_day schedule.time_of_day (next_daily after)
      else if text_eq schedule.frequency (text "weekly")
      then elim schedule.day_of_week [
        | none ↦ none
        | some day ↦
            at_time_of_day schedule.time_of_day (λ hour minute. next_weekly after hour minute day)
      ]
      else if text_eq schedule.frequency (text "monthly")
      then elim schedule.day_of_month [
        | none ↦ none
        | some day ↦
            at_time_of_day schedule.time_of_day (λ hour minute. next_monthly after hour minute day)
      ]
      else none
