-- ===== src/Backup/Next.antt =====
-- The next run is after the instant that it is computed at, and is the one that the cadence names.
use rotsy.Base.{
  ℕ, ◌+◌, ◌-◌, ◌*◌, ◌%◌, ◌≤◌, ◌<◌, ◌≡◌, refl, ap, subst, ◌∙◌, inl, inr, Option, none, some, leb,
  if◌then◌else◌, arith, Bool-cases, Option-cases,
}
use rotsy.Backup.{DateTime, weekday, ordinal, day_length, stamp, add_days}
use rotsy.Backup.Calendar.{IsValid, add_days-IsValid, ordinal-add_days, add_days-clock}
use rotsy.Backup.Cadence.{clock_of, at_time, next_daily, next_weekly}

-- An instant that is later.
abbrev pub IsAfter : DateTime → DateTime → Type 0
IsAfter after t = IsValid t × (stamp after < stamp t)

-- The same date at another time of the day.
abbrev SameDay : DateTime → ℕ → ℕ → DateTime → Type 0
SameDay after hour minute t =
    IsValid t × (ordinal t ≡ ordinal after) × (t.clock ≡ clock_of hour minute)

at_time-SameDay :
    (hour minute : ℕ) (after t : DateTime)
    → IsValid after
    → at_time hour minute after ≡ some t
    → SameDay after hour minute t
unfolding at_time ordinal
at_time-SameDay hour minute after t (y, m1, m12, d1, d, c) h = ground arith

pub stamp_lem : (t : DateTime) → stamp t ≡ ordinal t * day_length + t.clock
unfolding stamp
stamp_lem t = refl

weekday_lem : (t : DateTime) → weekday t ≡ (ordinal t + 6) % 7
unfolding weekday
weekday_lem t = refl

some_inj : {A : Type 0} {a b : A} → some a ≡ some b → a ≡ b
some_inj h = cc

-- The parts of an instant that the cadences are about.
abbrev pub Falls : DateTime → ℕ → ℕ → DateTime → Type 0
Falls after days clock t =
    IsValid t
    × (stamp after < stamp t)
    × (stamp t ≤ stamp after + days * day_length)
    × (t.clock ≡ clock)

later-Falls :
    (after : DateTime) (hour minute n m : ℕ) (target : DateTime)
    → IsValid after
    → IsValid target
    → ordinal target ≡ ordinal after + n
    → n < m
    → target.clock ≡ clock_of hour minute
    → Falls after m
        (clock_of hour minute)
        (if leb (stamp target) (stamp after) then add_days m target else target)
later-Falls after hour minute n m target (y, m1, m12, d1, d, c) valid o small clock =
    let (_, _, _, _, _, limit) = valid in
    let moved = ordinal-add_days m target valid in
    let same = add_days-clock m target in
    let s0 = stamp_lem after in
    let s1 = stamp_lem target in
    let s2 = stamp_lem (add_days m target) in
    elim (Bool-cases (leb (stamp target) (stamp after))) [
      | inl e ↦
          let le : stamp target ≤ stamp after = ground arith in
          rw e (
            add_days-IsValid m target valid,
            omega arith,
            omega arith,
            add_days-clock m target ∙ clock,
          )
      | inr e ↦ rw e (valid, ground arith, ground arith, clock)
    ]

-- What holds of a result, if there is one.
abbrev pub IfSome : (DateTime → Type 0) → Option DateTime → Type 0
IfSome P none = Unit
IfSome P (some t) = P t

pub IfSome-some :
    (P : DateTime → Type 0) (o : Option DateTime) (t : DateTime) → IfSome P o → o ≡ some t → P t
IfSome-some P o t p h = subst (IfSome P) h p

pub next_daily-IfSome :
    (after : DateTime) (hour minute : ℕ)
    → IsValid after
    → IfSome (Falls after 1 (clock_of hour minute)) (next_daily after hour minute)
unfolding next_daily
next_daily-IfSome after hour minute valid = elim (Option-cases (at_time hour minute after)) [
  | inl e ↦ rw (e, next_daily) tt
  | inr (s, e) ↦
      let (v, o, c) = at_time-SameDay hour minute after s valid e in
      rw (e, next_daily) (later-Falls after hour minute 0 1 s valid v (omega arith) (omega arith) c)
]

-- A weekly run, also on its day of the week.
abbrev pub FallsOn : DateTime → ℕ → ℕ → DateTime → Type 0
FallsOn after day clock t = Falls after 7 clock t × (weekday t ≡ day)

weekday-later :
    (day : ℕ) (s target : DateTime) (limit : ℕ)
    → IsValid s
    → IsValid target
    → ordinal target ≡ ordinal s + (day + 7 - weekday s) % 7
    → day < 7
    → weekday (if leb (stamp target) limit then add_days 7 target else target) ≡ day
weekday-later day s target limit v tv o small = elim (Bool-cases (leb (stamp target) limit)) [
  | inl e ↦ rw e (
      omega (
        arith,
        weekday_lem s,
        weekday_lem target,
        weekday_lem (add_days 7 target),
        ordinal-add_days 7 target tv,
      ))
  | inr e ↦ rw e (omega (arith, weekday_lem s, weekday_lem target))
]

pub next_weekly-IfSome :
    (after : DateTime) (hour minute day : ℕ)
    → IsValid after
    → day < 7
    → IfSome (FallsOn after day (clock_of hour minute)) (next_weekly after hour minute day)
unfolding next_weekly
next_weekly-IfSome after hour minute day valid small =
    elim (Option-cases (at_time hour minute after)) [
      | inl e ↦ rw (e, next_weekly) tt
      | inr (s, e) ↦
          let (v, o, c) = at_time-SameDay hour minute after s valid e in
          let n : ℕ = (day + 7 - weekday s) % 7 in
          let target : DateTime = add_days n s in
          let lands : ordinal target ≡ ordinal after + n =
            ordinal-add_days n s v ∙ ap (λ k. k + n) o in
          let tv : IsValid target = add_days-IsValid n s v in
          rw (e, next_weekly)
            (
              later-Falls after hour minute n 7 target valid tv lands (omega arith)
                  (add_days-clock n s ∙ c),
              weekday-later day s target (stamp after) v tv (ordinal-add_days n s v) small,
            )
    ]

pub IfSome-map :
    (P Q : DateTime → Type 0) (o : Option DateTime)
    → ((t : DateTime) → P t → Q t)
    → IfSome P o
    → IfSome Q o
IfSome-map P Q none f p = tt
IfSome-map P Q (some t) f p = f t p

pub IfSome-intro :
    (P : DateTime → Type 0) (o : Option DateTime) → ((t : DateTime) → o ≡ some t → P t) → IfSome P o
IfSome-intro P none h = tt
IfSome-intro P (some t) h = h t refl
