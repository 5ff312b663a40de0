-- ===== src/Backup/Accepted.antt =====
-- A schedule that the API accepts has a next run.
use rotsy.Base.{
  ℕ, ◌≤◌, ◌<◌, ◌≡◌, refl, inl, inr, Bool, true, false, not, ◌&&◌, ◌||◌, Option, none, some, [], ◌∷◌,
  Text, text, text_eq, has_text, leb, if◌then◌else◌, length, arith, Bool-cases,
}
use rotsy.Backup.{DateTime, BackupSchedule}
use rotsy.Backup.Calendar.{IsValid}
use rotsy.Backup.Cadence.{
  next_daily, next_weekly, next_monthly, parse_time_of_day, compute_next_run,
}
use rotsy.Backup.Next.{IsAfter}
use rotsy.Backup.Runs.{
  IsSome, at_time-IsSome, next_weekly-IsSome, next_monthly-IsSome, compute_next_run-IsAfter,
}
use rotsy.Backup.Api.{
  columns_fit, ScheduleBody, in_range, is_given, fields_valid, repos_valid, time_valid, accepts,
  row, create_backup_schedule,
}

next_daily-IsSome :
    (after : DateTime) (hour minute : ℕ)
    → hour < 24
    → minute < 60
    → IsSome (next_daily after hour minute)
unfolding next_daily
next_daily-IsSome after hour minute h m =
    let (t, e) = at_time-IsSome hour minute after h m in rw (e, next_daily) (_, refl)

all_four :
    (a b c d : Bool) → (a && b && c && d) ≡ true → (a ≡ true) × (b ≡ true) × (c ≡ true) × (d ≡ true)
all_four a b c d h = (ground arith, ground arith, ground arith, ground arith)

all_three : (a b c : Bool) → (a && b && c) ≡ true → (a ≡ true) × (b ≡ true) × (c ≡ true)
all_three a b c h = (ground arith, ground arith, ground arith)

week_day_limit :
    (a b c d e f : Bool) → (a && b && c && d && e && f) ≡ true → (c ≡ true) × (d ≡ true)
week_day_limit a b c d e f h = (ground arith, ground arith)

-- A value that is needed is given.
needed :
    {A : Type 0} (b : Bool) (o : Option A)
    → (not b || is_given o) ≡ true
    → b ≡ true
    → (x : A) × (o ≡ some x)
needed true (some x) h e = (x, refl)
needed true none h e = cc
needed false o h e = cc

in_range-some :
    (lo hi n : ℕ) (o : Option ℕ) → in_range lo hi o ≡ true → o ≡ some n → (lo ≤ n) × (n ≤ hi)
in_range-some lo hi n none h e = cc
in_range-some lo hi n (some m) h e = (ground (arith, h, e), ground (arith, h, e))

time_parts :
    (o : Option (ℕ × ℕ))
    → (elim o [ none ↦ false | some (hour, minute) ↦ leb hour 23 && leb minute 59 ]) ≡ true
    → (hour minute : ℕ) × (o ≡ some (hour, minute)) × (hour < 24) × (minute < 60)
time_parts none h = cc
time_parts (some (hour, minute)) h = (hour, minute, refl, ground arith, ground arith)

field_limits :
    (body : ScheduleBody)
    → fields_valid body ≡ true
    → (in_range 0 6 body.day_of_week ≡ true) × (in_range 1 31 body.day_of_month ≡ true)
unfolding fields_valid
field_limits body h =
    week_day_limit (leb 1 (length body.name)) (leb (length body.name) 128)
      (in_range 0 6 body.day_of_week) (in_range 1 31 body.day_of_month) _ _ h

module _ (int_of : Text → Option ℕ) (next_cron : Text → DateTime → Option DateTime) where
  at_parsed :
      (value : Option Text) (next : ℕ → ℕ → Option DateTime) (hour minute : ℕ)
      → parse_time_of_day int_of value ≡ some (hour, minute)
      → IsSome (next hour minute)
      → IsSome (elim (parse_time_of_day int_of value) [
        | none ↦ none
        | some (hour, minute) ↦ next hour minute
      ])
  at_parsed value next hour minute p h = rw p h

  timed :
      (schedule : BackupSchedule) (now : DateTime) (hour minute : ℕ)
      → parse_time_of_day int_of schedule.time_of_day ≡ some (hour, minute)
      → hour < 24
      → minute < 60
      → text_eq schedule.frequency (text "cron") ≡ false
      → has_text schedule.frequency
          (text "daily" ∷ text "weekly" ∷ text "monthly" ∷ text "cron" ∷ [])
        ≡ true
      → (text_eq schedule.frequency (text "weekly") ≡ true
          → (day : ℕ) × (schedule.day_of_week ≡ some day))
      → (text_eq schedule.frequency (text "monthly") ≡ true
          → (day : ℕ) × (schedule.day_of_month ≡ some day) × (1 ≤ day))
      → IsSome (compute_next_run int_of next_cron schedule now)
  unfolding compute_next_run
  timed schedule now hour minute p h m no_cron known weekly monthly =
      elim (Bool-cases (text_eq schedule.frequency (text "daily"))) [
        | inl d ↦
            rw (no_cron, d, compute_next_run)
              (at_parsed schedule.time_of_day (next_daily now) hour minute p
                (next_daily-IsSome now hour minute h m))
        | inr no_daily ↦ elim (Bool-cases (text_eq schedule.frequency (text "weekly"))) [
          | inl w ↦
              let (day, e) = weekly w in
              rw (no_cron, no_daily, w, e, compute_next_run)
                (at_parsed schedule.time_of_day (λ k l. next_weekly now k l day) hour minute p
                  (next_weekly-IsSome now hour minute day h m))
          | inr no_weekly ↦
              let is_monthly : text_eq schedule.frequency (text "monthly") ≡ true =
                last_of_four (text_eq schedule.frequency (text "daily"))
                  (text_eq schedule.frequency (text "weekly"))
                  (text_eq schedule.frequency (text "monthly"))
                  (text_eq schedule.frequency (text "cron")) no_daily no_weekly no_cron known in
              let (day, e, d1) = monthly is_monthly in
              rw (no_cron, no_daily, no_weekly, is_monthly, e, compute_next_run)
                (at_parsed schedule.time_of_day (λ k l. next_monthly now k l day) hour minute p
                  (next_monthly-IsSome now hour minute day h m d1))
        ]
      ]
    where
      last_of_four :
          (a b c d : Bool)
          → a ≡ false
          → b ≡ false
          → d ≡ false
          → (a || (b || (c || (d || false)))) ≡ true
          → c ≡ true
      last_of_four a b c d ha hb hd h = ground arith

  -- The time of the day of a body that the validator takes.
  time_valid-parse :
      (body : ScheduleBody)
      → time_valid int_of body ≡ true
      → (hour minute : ℕ) × (parse_time_of_day int_of body.time_of_day ≡ some (hour, minute))
        × (hour < 24)
        × (minute < 60)
        × ((not (text_eq body.frequency (text "weekly")) || is_given body.day_of_week) ≡ true)
        × ((not (text_eq body.frequency (text "monthly")) || is_given body.day_of_month) ≡ true)
  unfolding time_valid
  time_valid-parse body h =
      let (t, w, m) = all_three _ _ _ h in
      let (hour, minute, e, h24, m60) = time_parts (parse_time_of_day int_of body.time_of_day) t in
      (hour, minute, e, h24, m60, w, m)

  accepted :
      (is_valid safe : Text → Bool) (body : ScheduleBody)
      → accepts int_of is_valid safe body ≡ true
      → text_eq body.frequency (text "cron") ≡ false
      → (fields_valid body ≡ true)
        × (repos_valid safe body ≡ true)
        × (has_text body.frequency
              (text "daily" ∷ text "weekly" ∷ text "monthly" ∷ text "cron" ∷ [])
            ≡ true)
        × (time_valid int_of body ≡ true)
  unfolding accepts
  accepted is_valid safe body ok no_cron =
      let (f, r, k, rest) = all_four _ _ _ _ ok in
      (
        f,
        r,
        k,
        chosen (text_eq body.frequency (text "cron")) _ (time_valid int_of body) no_cron rest,
      )
    where
      chosen : (b x y : Bool) → b ≡ false → (if b then x else y) ≡ true → y ≡ true
      chosen true x y h e = cc
      chosen false x y h e = e

  module _
      (cron_later : (e : Text) (after t : DateTime)
        → next_cron e after ≡ some t
        → IsAfter after t) where
    -- A body that the API accepts and whose values fit their columns, but for a cron expression,
    -- becomes a schedule with a next run after the instant of the request.
    pub create_backup_schedule-IsAfter :
        (is_valid safe : Text → Bool) (id : ℕ) (now : DateTime) (body : ScheduleBody)
        → IsValid now
        → accepts int_of is_valid safe body ≡ true
        → text_eq body.frequency (text "cron") ≡ false
        → columns_fit body ≡ true
        → (t : DateTime) × (create_backup_schedule int_of is_valid safe next_cron id now body
            ≡ some (record (row int_of id body) { next_run_at = some t }))
          × IsAfter now t
    unfolding create_backup_schedule
    create_backup_schedule-IsAfter is_valid safe id now body valid ok no_cron fit =
        let (fields, _, known, time) = accepted is_valid safe body ok no_cron in
        let (hour, minute, p, h, m, weekly, monthly) = time_valid-parse body time in
        let (week_ok, month_ok) = field_limits body fields in
        let (t, e) =
          timed (row int_of id body) now hour minute p h m no_cron known
            (needed (text_eq body.frequency (text "weekly")) body.day_of_week weekly)
            (λ is_monthly.
              let (day, d) =
                needed (text_eq body.frequency (text "monthly")) body.day_of_month monthly
                  is_monthly in
              (day, d, (in_range-some 1 31 day body.day_of_month month_ok d).0)) in
        (
          t,
          simp (ok, e, fit, create_backup_schedule),
          compute_next_run-IsAfter int_of next_cron cron_later (row int_of id body) now t valid
              (λ day d. omega (arith, (in_range-some 0 6 day body.day_of_week week_ok d).1)) e,
        )
