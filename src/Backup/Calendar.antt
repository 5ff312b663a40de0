-- ===== src/Backup/Calendar.antt =====
-- The calendar's arithmetic: a day later is an ordinal more, and dates stay dates.
use rotsy.Base.{
  ℕ, zero, suc, ◌+◌, ◌≤◌, ◌<◌, ◌≡◌, refl, sym, ap, ◌∙◌, inl, inr, false, ltb, if◌then◌else◌, arith,
  Bool-cases,
}
use rotsy.Backup.{
  DateTime, is_leap, days_in_month, days_before_month, days_before_year, ordinal, day_length,
  next_day, add_days,
}

abbrev pub IsValid : DateTime → Type 0
IsValid t =
    (1 ≤ t.year)
    × (1 ≤ t.month)
    × (t.month ≤ 12)
    × (1 ≤ t.day)
    × (t.day ≤ days_in_month t.year t.month)
    × (t.clock < day_length)

pub days_in_month_range :
    (year month : ℕ) → (28 ≤ days_in_month year month) × (days_in_month year month ≤ 31)
unfolding days_in_month
days_in_month_range year month = ground arith

pub days_before_month-suc :
    (year month : ℕ)
    → 1 ≤ month
    → days_before_month year (suc month) ≡ days_before_month year month + days_in_month year month
unfolding days_before_month
days_before_month-suc year zero h = absurd (omega arith)
days_before_month-suc year (suc month) h = refl

leap_days :
    (past : ℕ)
    → days_before_year (suc (suc past))
      ≡ days_before_year (suc past) + (if is_leap (suc past) then 366 else 365)
unfolding days_before_year is_leap
leap_days past = ground arith

year_length : (year : ℕ) → days_before_month year 12 + 31 ≡ (if is_leap year then 366 else 365)
unfolding days_before_month days_in_month
year_length year = ground arith

pub year_start :
    (year : ℕ)
    → 1 ≤ year
    → days_before_year (suc year) ≡ days_before_year year + (days_before_month year 12 + 31)
year_start zero h = absurd (omega arith)
year_start (suc past) h =
    leap_days past ∙ ap (λ n. days_before_year (suc past) + n) (sym (year_length (suc past)))

pub december : (year : ℕ) → days_in_month year 12 ≡ 31
unfolding days_in_month
december year = refl

pub ordinal_lem :
    (t : DateTime) → ordinal t ≡ days_before_year t.year + days_before_month t.year t.month + t.day
unfolding ordinal
ordinal_lem t = refl

pub january : (year : ℕ) → days_before_month year 1 ≡ 0
unfolding days_before_month
january year = refl

-- The last day of a month, and the last month.
pub month_end : (day last : ℕ) → day ≤ last → ltb day last ≡ false → day ≡ last
month_end day last h e = ground arith

pub ordinal-next_day : (t : DateTime) → IsValid t → ordinal (next_day t) ≡ suc (ordinal t)
unfolding next_day
ordinal-next_day t (y, m1, m12, d1, d, c) =
    elim (Bool-cases (ltb t.day (days_in_month t.year t.month))) [
      | inl e ↦
          rw (e, next_day)
            (omega (arith, ordinal_lem t, ordinal_lem (record t { day = suc t.day })))
      | inr e ↦ elim (Bool-cases (ltb t.month 12)) [
        | inl e' ↦
            rw (e, e', next_day)
              (omega (
                arith,
                ordinal_lem t,
                ordinal_lem (record t { month = suc t.month; day = 1 }),
                days_before_month-suc t.year t.month m1,
                month_end t.day (days_in_month t.year t.month) d e,
              ))
        | inr e' ↦
            let last : t.month ≡ 12 = month_end t.month 12 m12 e' in
            rw (e, e', next_day)
              (omega (
                arith,
                ordinal_lem t,
                ordinal_lem (record { year = suc t.year; month = 1; day = 1; clock = t.clock }),
                year_start t.year y,
                ap (days_before_month t.year) last,
                december t.year,
                ap (days_in_month t.year) last,
                month_end t.day (days_in_month t.year t.month) d e,
                january (suc t.year),
              ))
      ]
    ]

pub next_day-IsValid : (t : DateTime) → IsValid t → IsValid (next_day t)
unfolding next_day
next_day-IsValid t (y, m1, m12, d1, d, c) =
    elim (Bool-cases (ltb t.day (days_in_month t.year t.month))) [
      | inl e ↦ rw (e, next_day) (y, m1, m12, omega arith, ground arith, c)
      | inr e ↦ elim (Bool-cases (ltb t.month 12)) [
        | inl e' ↦
            let (lo, hi) = days_in_month_range t.year (suc t.month) in
            rw (e, e', next_day) (y, omega arith, ground arith, omega arith, omega arith, c)
        | inr e' ↦
            let (lo, hi) = days_in_month_range (suc t.year) 1 in
            rw (e, e', next_day)
              (omega arith, omega arith, omega arith, omega arith, omega arith, c)
      ]
    ]

pub add_days-IsValid : (n : ℕ) (t : DateTime) → IsValid t → IsValid (add_days n t)
unfolding add_days
add_days-IsValid zero t h = h
add_days-IsValid (suc n) t h = add_days-IsValid n (next_day t) (next_day-IsValid t h)

pub ordinal-add_days : (n : ℕ) (t : DateTime) → IsValid t → ordinal (add_days n t) ≡ ordinal t + n
unfolding add_days
ordinal-add_days zero t h = omega arith
ordinal-add_days (suc n) t h =
    omega (arith, ordinal-add_days n (next_day t) (next_day-IsValid t h), ordinal-next_day t h)

next_day-clock : (t : DateTime) → (next_day t).clock ≡ t.clock
unfolding next_day
next_day-clock t = ground arith

pub add_days-clock : (n : ℕ) (t : DateTime) → (add_days n t).clock ≡ t.clock
unfolding add_days
add_days-clock zero t = refl
add_days-clock (suc n) t = add_days-clock n (next_day t) ∙ next_day-clock t
