-- ===== src/Backup/Runs.antt =====
-- That a next run is computed, and where it falls.
use rotsy.Base.{
  ℕ, suc, min, ◌≤◌, ◌<◌, ◌≡◌, refl, inl, inr, true, Option, none, some, ltb, leb, arith, Bool-cases,
  Option-cases, Text, text, text_eq, non_empty,
}
use rotsy.Backup.{DateTime, BackupSchedule, days_in_month, stamp}
use rotsy.Backup.Calendar.{IsValid, days_in_month_range}
use rotsy.Backup.Cadence.{
  clock_of, at_time, next_daily, next_weekly, build, next_monthly, parse_time_of_day,
  compute_next_run,
}
use rotsy.Backup.Next.{
  IsAfter, IfSome, IfSome-some, IfSome-map, IfSome-intro, Falls, next_daily-IfSome, FallsOn,
  next_weekly-IfSome,
}
use rotsy.Backup.Monthly.{FallsMonthly, next_monthly-IfSome}

abbrev pub IsSome : Option DateTime → Type 0
IsSome o = (t : DateTime) × (o ≡ some t)

pub at_time-IsSome :
    (hour minute : ℕ) (t : DateTime) → hour < 24 → minute < 60 → IsSome (at_time hour minute t)
unfolding at_time
at_time-IsSome hour minute t h m = (record t { clock = clock_of hour minute }, ground arith)

pub next_weekly-IsSome :
    (after : DateTime) (hour minute day : ℕ)
    → hour < 24
    → minute < 60
    → IsSome (next_weekly after hour minute day)
unfolding next_weekly
next_weekly-IsSome after hour minute day h m =
    let (t, e) = at_time-IsSome hour minute after h m in rw (e, next_weekly) (_, refl)

build-IsSome :
    (hour minute day year month : ℕ)
    → hour < 24
    → minute < 60
    → 1 ≤ day
    → IsSome (build hour minute day year month)
unfolding build
build-IsSome hour minute day year month h m d =
    let (lo, hi) = days_in_month_range year month in
    let positive : leb 1 (min day (days_in_month year month)) ≡ true = ground arith in
    rw (positive, build)
      (at_time-IsSome hour minute
        (record { year = year; month = month; day = min day (days_in_month year month); clock = 0 })
        h m)

pub next_monthly-IsSome :
    (after : DateTime) (hour minute day : ℕ)
    → hour < 24
    → minute < 60
    → 1 ≤ day
    → IsSome (next_monthly after hour minute day)
unfolding next_monthly
next_monthly-IsSome after hour minute day h m d =
    let (t, e) = build-IsSome hour minute day after.year after.month h m d in
    let (u, f) = build-IsSome hour minute day after.year (suc after.month) h m d in
    let (v, g) = build-IsSome hour minute day (suc after.year) 1 h m d in
    elim (Bool-cases (leb (stamp t) (stamp after))) [
      | inr now ↦ rw (e, now, next_monthly) (t, refl)
      | inl later ↦ elim (Bool-cases (ltb 12 (suc after.month))) [
        | inl last ↦ rw (e, later, last, next_monthly) (v, g)
        | inr more ↦ rw (e, later, more, next_monthly) (u, f)
      ]
    ]

-- A weekly schedule with a day of the week and a time of the day has a next run: on that day at
-- that time, after the given instant, and not more than seven days after it.
pub next_weekly-FallsOn :
    (after : DateTime) (hour minute day : ℕ)
    → IsValid after
    → hour < 24
    → minute < 60
    → day < 7
    → (t : DateTime) × (next_weekly after hour minute day ≡ some t)
      × FallsOn after day (clock_of hour minute) t
next_weekly-FallsOn after hour minute day valid h m d =
    let (t, e) = next_weekly-IsSome after hour minute day h m in
    (
      t,
      e,
      IfSome-some (FallsOn after day (clock_of hour minute)) (next_weekly after hour minute day) t
          (next_weekly-IfSome after hour minute day valid d) e,
    )

-- A monthly schedule with a day from 1 on and a time of the day has a next run after the given
-- instant: on that day, or on the last day of a shorter month, at that time, in the month of the
-- instant or, where that day of the month is not to come, in the next one.
pub next_monthly-FallsMonthly :
    (after : DateTime) (hour minute day : ℕ)
    → IsValid after
    → hour < 24
    → minute < 60
    → 1 ≤ day
    → (t : DateTime) × (next_monthly after hour minute day ≡ some t)
      × FallsMonthly after day (clock_of hour minute) t
next_monthly-FallsMonthly after hour minute day valid h m d =
    let (t, e) = next_monthly-IsSome after hour minute day h m d in
    (
      t,
      e,
      IfSome-some (FallsMonthly after day (clock_of hour minute))
          (next_monthly after hour minute day) t (next_monthly-IfSome after hour minute day valid)
          e,
    )

abbrev pub InWeek : BackupSchedule → Type 0
InWeek schedule = (day : ℕ) → schedule.day_of_week ≡ some day → day < 7

module _ (int_of : Text → Option ℕ) (next_cron : Text → DateTime → Option DateTime)
    (cron_later : (e : Text) (after t : DateTime)
      → next_cron e after ≡ some t
      → IsAfter after t) where
  timed-IsAfter :
      (after : DateTime) (value : Option Text) (next : ℕ → ℕ → Option DateTime)
      → ((hour minute : ℕ) → IfSome (IsAfter after) (next hour minute))
      → IfSome (IsAfter after) (elim (parse_time_of_day int_of value) [
        | none ↦ none
        | some (hour, minute) ↦ next hour minute
      ])
  timed-IsAfter after value next h = elim (Option-cases (parse_time_of_day int_of value)) [
    | inl e ↦ rw e tt
    | inr ((hour, minute), e) ↦ rw e (h hour minute)
  ]

  pub compute_next_run-IfSome :
      (schedule : BackupSchedule) (after : DateTime)
      → IsValid after
      → InWeek schedule
      → IfSome (IsAfter after) (compute_next_run int_of next_cron schedule after)
  unfolding compute_next_run
  compute_next_run-IfSome schedule after valid week =
      elim (Bool-cases (text_eq schedule.frequency (text "cron"))) [
        | inl cron ↦ elim (Option-cases (non_empty schedule.cron_expression)) [
          | inl e ↦ rw (cron, e, compute_next_run) tt
          | inr (expression, e) ↦
              rw (cron, e, compute_next_run)
                (IfSome-intro (IsAfter after) (next_cron expression after)
                  (cron_later expression after))
        ]
        | inr no_cron ↦ elim (Bool-cases (text_eq schedule.frequency (text "daily"))) [
          | inl daily ↦
              rw (no_cron, daily, compute_next_run)
                (timed-IsAfter after schedule.time_of_day (next_daily after) (λ hour minute.
                  IfSome-map (Falls after 1 (clock_of hour minute)) (IsAfter after)
                    (next_daily after hour minute) (λ t h. (h.0, h.1))
                    (next_daily-IfSome after hour minute valid)))
          | inr no_daily ↦ elim (Bool-cases (text_eq schedule.frequency (text "weekly"))) [
            | inl weekly ↦ elim (Option-cases schedule.day_of_week) [
              | inl e ↦ rw (no_cron, no_daily, weekly, e, compute_next_run) tt
              | inr (day, e) ↦
                  rw (no_cron, no_daily, weekly, e, compute_next_run)
                    (timed-IsAfter after schedule.time_of_day
                      (λ hour minute. next_weekly after hour minute day)
                      (λ hour minute.
                        IfSome-map (FallsOn after day (clock_of hour minute)) (IsAfter after)
                          (next_weekly after hour minute day) (λ t h. (h.0.0, h.0.1))
                          (next_weekly-IfSome after hour minute day valid (week day e))))
            ]
            | inr no_weekly ↦ elim (Bool-cases (text_eq schedule.frequency (text "monthly"))) [
              | inr other ↦ rw (no_cron, no_daily, no_weekly, other, compute_next_run) tt
              | inl monthly ↦ elim (Option-cases schedule.day_of_month) [
                | inl e ↦ rw (no_cron, no_daily, no_weekly, monthly, e, compute_next_run) tt
                | inr (day, e) ↦
                    rw (no_cron, no_daily, no_weekly, monthly, e, compute_next_run)
                      (timed-IsAfter after schedule.time_of_day
                        (λ hour minute. next_monthly after hour minute day)
                        (λ hour minute.
                          IfSome-map (FallsMonthly after day (clock_of hour minute)) (IsAfter after)
                            (next_monthly after hour minute day) (λ t h. (h.0, h.1))
                            (next_monthly-IfSome after hour minute day valid)))
              ]
            ]
          ]
        ]
      ]

  -- Whatever the cadence, the next run of a schedule, if there is one, is a date of the calendar
  -- strictly after the instant that it is computed at.
  pub compute_next_run-IsAfter :
      (schedule : BackupSchedule) (after t : DateTime)
      → IsValid after
      → InWeek schedule
      → compute_next_run int_of next_cron schedule after ≡ some t
      → IsAfter after t
  compute_next_run-IsAfter schedule after t valid week =
      IfSome-some (IsAfter after) (compute_next_run int_of next_cron schedule after) t
        (compute_next_run-IfSome schedule after valid week)
