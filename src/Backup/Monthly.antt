-- ===== src/Backup/Monthly.antt =====
-- The monthly cadence.
use rotsy.Base.{
  ℕ, suc, ◌+◌, min, ◌≤◌, ◌<◌, ◌≡◌, refl, ap, ◌∙◌, ◌⊎◌, inl, inr, ltb, leb, if◌then◌else◌, arith,
  Bool-cases, Option-cases,
}
use rotsy.Backup.Next.{stamp_lem, IfSome, IfSome-some, IfSome-map}
use rotsy.Backup.{
  DateTime, days_in_month, days_before_year, days_before_month, ordinal, day_length, stamp,
}
use rotsy.Backup.Calendar.{
  IsValid, days_before_month-suc, year_start, december, january, ordinal_lem, month_end,
}
use rotsy.Backup.Cadence.{clock_of, at_time, build, next_monthly}

-- A monthly run, on its day of the month or the last of a shorter one, in the month of the instant
-- it is computed at, or in the next where that day of this month is not to come.
abbrev next_month : ℕ → ℕ
next_month month = if ltb 12 (suc month) then 1 else suc month

abbrev pub FallsMonthly : DateTime → ℕ → ℕ → DateTime → Type 0
FallsMonthly after day clock t =
    IsValid t
    × (stamp after < stamp t)
    × (t.day ≡ min day (days_in_month t.year t.month))
    × (t.clock ≡ clock)
    × (((t.year ≡ after.year) × (t.month ≡ after.month))
        ⊎ ((t.month ≡ next_month after.month)
            × (min day (days_in_month after.year after.month) ≤ after.day)))

-- What `build` answers.
abbrev Built : ℕ → ℕ → ℕ → ℕ → DateTime → Type 0
Built clock day year month t =
    (t.year ≡ year)
    × (t.month ≡ month)
    × (t.day ≡ min day (days_in_month year month))
    × (1 ≤ t.day)
    × (t.clock ≡ clock)
    × (t.clock < day_length)

build-IfSome :
    (hour minute day year month : ℕ)
    → IfSome (Built (clock_of hour minute) day year month) (build hour minute day year month)
unfolding build at_time
build-IfSome hour minute day year month = ground arith

Built-IsValid :
    (clock day year month : ℕ) (t : DateTime)
    → 1 ≤ year
    → 1 ≤ month
    → month ≤ 12
    → Built clock day year month t
    → IsValid t
Built-IsValid clock day year month t y m1 m12 (ey, em, ed, d1, ec, c) =
    rw (ey, em) (y, m1, m12, d1, omega arith, c)

ordinal-of :
    (t : DateTime) (year month : ℕ)
    → t.year ≡ year
    → t.month ≡ month
    → ordinal t ≡ days_before_year year + days_before_month year month + t.day
ordinal-of t year month ey em = ordinal_lem t ∙ rw (ey, em) refl

-- A date of the month that follows is later.
month-later :
    (after t : DateTime)
    → IsValid after
    → IsValid t
    → t.year ≡ after.year
    → t.month ≡ suc after.month
    → stamp after < stamp t
month-later after t (y, m1, m12, d1, d, c) (y', m1', m12', d1', d', c') ey em = omega (
  arith,
  stamp_lem after,
  stamp_lem t,
  ordinal_lem after,
  ordinal-of t after.year (suc after.month) ey em,
  days_before_month-suc after.year after.month m1,
)

year-later :
    (after t : DateTime)
    → IsValid after
    → IsValid t
    → after.month ≡ 12
    → t.year ≡ suc after.year
    → t.month ≡ 1
    → stamp after < stamp t
year-later after t (y, m1, m12, d1, d, c) (y', m1', m12', d1', d', c') last ey em = omega (
  arith,
  stamp_lem after,
  stamp_lem t,
  ordinal-of after after.year 12 refl last,
  ordinal-of t (suc after.year) 1 ey em,
  year_start after.year y,
  january (suc after.year),
  december after.year,
  ap (days_in_month after.year) last,
)

-- The date of this month is not to come where its instant is not.
past_day :
    (after t : DateTime)
    → IsValid after
    → IsValid t
    → t.year ≡ after.year
    → t.month ≡ after.month
    → stamp t ≤ stamp after
    → t.day ≤ after.day
past_day after t (y, m1, m12, d1, d, c) (y', m1', m12', d1', d', c') ey em le = omega (
  arith,
  stamp_lem after,
  stamp_lem t,
  ordinal_lem after,
  ordinal-of t after.year after.month ey em,
)

-- What is built for the month after.
next-FallsMonthly :
    (after : DateTime) (clock day : ℕ)
    → IsValid after
    → min day (days_in_month after.year after.month) ≤ after.day
    → after.month < 12
    → (t : DateTime) → Built clock day after.year (suc after.month) t
    → FallsMonthly after day clock t
next-FallsMonthly after clock day valid past more t built =
    let (y, m1, m12, _, _, _) = valid in
    let (ey, em, ed, _, ec, _) = built in
    let tv : IsValid t =
      Built-IsValid clock day after.year (suc after.month) t y (omega arith) (omega arith) built in
    (
      tv,
      month-later after t valid tv ey em,
      rw (ey, em) ed,
      ec,
      inr (ground (arith, em, more), past),
    )

january-FallsMonthly :
    (after : DateTime) (clock day : ℕ)
    → IsValid after
    → min day (days_in_month after.year after.month) ≤ after.day
    → after.month ≡ 12
    → (t : DateTime) → Built clock day (suc after.year) 1 t
    → FallsMonthly after day clock t
january-FallsMonthly after clock day valid past last t built =
    let (y, m1, m12, _, _, _) = valid in
    let (ey, em, ed, _, ec, _) = built in
    let tv : IsValid t =
      Built-IsValid clock day (suc after.year) 1 t (omega arith) (omega arith) (omega arith)
        built in
    (
      tv,
      year-later after t valid tv last ey em,
      rw (ey, em) ed,
      ec,
      inr (ground (arith, em, last), past),
    )

pub next_monthly-IfSome :
    (after : DateTime) (hour minute day : ℕ)
    → IsValid after
    → IfSome (FallsMonthly after day (clock_of hour minute)) (next_monthly after hour minute day)
unfolding next_monthly
next_monthly-IfSome after hour minute day valid =
    let (y, m1, m12, d1, d, c) = valid in
    let clock : ℕ = clock_of hour minute in
    elim (Option-cases (build hour minute day after.year after.month)) [
      | inl e ↦ rw (e, next_monthly) tt
      | inr (s, e) ↦
          let built : Built clock day after.year after.month s =
            IfSome-some (Built clock day after.year after.month)
              (build hour minute day after.year after.month) s
              (build-IfSome hour minute day after.year after.month) e in
          let sv : IsValid s = Built-IsValid clock day after.year after.month s y m1 m12 built in
          let (ey, em, ed, _, ec, _) = built in
          elim (Bool-cases (leb (stamp s) (stamp after))) [
            | inr now ↦
                rw (e, now, next_monthly) (sv, ground arith, rw (ey, em) ed, ec, inl (ey, em))
            | inl later ↦
                let le : stamp s ≤ stamp after = ground arith in
                let past : min day (days_in_month after.year after.month) ≤ after.day =
                  rw⁻¹ ed (past_day after s valid sv ey em le) in
                elim (Bool-cases (ltb 12 (suc after.month))) [
                  | inl last ↦
                      rw (e, later, last, next_monthly)
                        (IfSome-map (Built clock day (suc after.year) 1)
                          (FallsMonthly after day clock) _
                          (january-FallsMonthly after clock day valid past
                            (month_end after.month 12 m12 (ground arith)))
                          (build-IfSome hour minute day (suc after.year) 1))
                  | inr more ↦
                      rw (e, later, more, next_monthly)
                        (IfSome-map (Built clock day after.year (suc after.month))
                          (FallsMonthly after day clock) _
                          (next-FallsMonthly after clock day valid past (ground arith))
                          (build-IfSome hour minute day after.year (suc after.month)))
                ]
          ]
    ]
