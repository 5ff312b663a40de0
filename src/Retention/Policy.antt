-- ===== src/Retention/Policy.antt =====
-- `_select_for_deletion` as a whole: what a policy may delete, and what it must.
use rotsy.Base.{
  ℕ, ◌+◌, ◌-◌, ◌*◌, ◌≤◌, ◌<◌, ◌≡◌, ap, ◌∙◌, ◌⊎◌, inl, inr, Bool, true, Option, none, some, List, [],
  ◌∷◌, keep_if, keep_if_yes, keep_if_no, ltb, All, All-map, Any, arith, Bool-cases,
}
use rotsy.Retention.{
  Component, Dated, str_id, Targets, keep_last_n_targets, age_rule_targets, is_before,
  microseconds_per_day, old_targets, with_surplus,
}
use rotsy.Retention.Order.{count, is_newer}
use rotsy.Retention.Targets.{
  AllTargets, has_id, add-AllTargets, update-AllTargets, add-gives_id, update-keeps_id,
}
use rotsy.Retention.Selection.{versions, IsSurplus, keep_last_n-AllTargets, keep_last_n-gives_id}

-- The rules of a policy, for one entry: older than the days, and surplus to the `n` versions.
abbrev pub IsOld : Option ℕ → ℕ → Dated → Type 0
IsOld none now entry = ⊥
IsOld (some days) now (component, none) = ⊥
IsOld (some days) now (component, some timestamp) = timestamp + days * microseconds_per_day < now

abbrev pub MaySurplus : Option ℕ → List Dated → Dated → Type 0
MaySurplus none dated entry = ⊥
MaySurplus (some n) dated entry = IsSurplus n dated entry

abbrev pub MustSurplus : Option ℕ → List Dated → Dated → Type 0
MustSurplus none dated entry = ⊥
MustSurplus (some n) dated entry = n ≤ count (is_newer entry) (versions dated entry)

abbrev pub Overflows : Option ℕ → ℕ → Type 0
Overflows none now = ⊥
Overflows (some days) now = now < days * microseconds_per_day

before-IsOld :
    (days now : ℕ) (entry : Dated)
    → is_before (now - days * microseconds_per_day) entry ≡ true
    → IsOld (some days) now entry
before-IsOld days now (component, none) h = cc
before-IsOld days now (component, some t) h = ground arith

IsOld-before :
    (days now : ℕ) (entry : Dated)
    → IsOld (some days) now entry
    → is_before (now - days * microseconds_per_day) entry ≡ true
IsOld-before days now (component, none) h = absurd h
IsOld-before days now (component, some t) h = ground arith

keep-All :
    (P Q : Dated → Type 0) (p : Dated → Bool)
    → ((entry : Dated) → P entry → p entry ≡ true → Q entry)
    → (dated : List Dated) → All P dated
    → All Q (keep_if p dated)
keep-All P Q p f [] h = tt
keep-All P Q p f (e ∷ dated) (o, h) = elim (Bool-cases (p e)) [
  | inl y ↦ rw (keep_if_yes p e dated y) (f e o y, keep-All P Q p f dated h)
  | inr n ↦ rw (keep_if_no p e dated n) (keep-All P Q p f dated h)
]

keep-Any :
    (entry : Dated) (p : Dated → Bool) (dated : List Dated)
    → p entry ≡ true
    → Any (λ other. other ≡ entry) dated
    → Any (λ other. other ≡ entry) (keep_if p dated)
keep-Any entry p [] h m = m
keep-Any entry p (e ∷ dated) h (inl q) = rw (keep_if_yes p e dated (ap p q ∙ h)) (inl q)
keep-Any entry p (e ∷ dated) h (inr m) = elim (Bool-cases (p e)) [
  | inl y ↦ rw (keep_if_yes p e dated y) (inr (keep-Any entry p dated h m))
  | inr n ↦ rw (keep_if_no p e dated n) (keep-Any entry p dated h m)
]

-- What may go, with a property of the entry.
module _ (P : Dated → Type 0) (days keep : Option ℕ) (now : ℕ) (dated : List Dated) where
  abbrev pub MayGo : Component → Type 0
  MayGo component =
      (t : Option ℕ) × P (component, t)
      × (IsOld days now (component, t) ⊎ MaySurplus keep dated (component, t))

module _ (P : Dated → Type 0) (keep : Option ℕ) (now : ℕ) (dated : List Dated)
    (good : All P dated) where
  abbrev pub AreOld : Option ℕ → Option Targets → Type 0
  AreOld days none = Overflows days now
  AreOld days (some old) = AllTargets (MayGo P days keep now dated) old

  pub old-AreOld : (days : Option ℕ) → AreOld days (old_targets days dated now)
  unfolding old_targets age_rule_targets
  old-AreOld none = tt
  old-AreOld (some days) = elim (Bool-cases (ltb now (days * microseconds_per_day))) [
    | inl e ↦ rw e (ground arith)
    | inr e ↦ rw e (
        add-AllTargets (MayGo P (some days) keep now dated) _ []
          (keep-All P (λ entry. MayGo P (some days) keep now dated entry.0)
            (is_before (now - days * microseconds_per_day))
            (λ entry p b. (entry.1, p, inl (before-IsOld days now entry b))) dated good)
          tt)
  ]

module _ (P : Dated → Type 0) (days : Option ℕ) (now : ℕ) (dated : List Dated)
    (good : All P dated) where
  pub with_surplus-AllTargets :
      (keep : Option ℕ) (old : Targets)
      → AllTargets (MayGo P days keep now dated) old
      → AllTargets (MayGo P days keep now dated) (with_surplus keep dated old)
  unfolding with_surplus
  with_surplus-AllTargets none old h = h
  with_surplus-AllTargets (some n) old h =
      update-AllTargets (MayGo P days (some n) now dated) old (keep_last_n_targets dated n) h (
        All-map (λ p (e, (t, q, s)). (e, (t, q, inr s))) (keep_last_n_targets dated n)
          (keep_last_n-AllTargets P n dated good))

module _ (now : ℕ) (dated : List Dated) (entry : Dated)
    (listed : Any (λ other. other ≡ entry) dated) where
  pub old-gives_id :
      (days : Option ℕ) (old : Targets)
      → IsOld days now entry
      → old_targets days dated now ≡ some old
      → has_id (str_id entry.0) old ≡ true
  unfolding old_targets age_rule_targets
  old-gives_id none old h e = absurd h
  old-gives_id (some days) old h e =
      let before = is_before (now - days * microseconds_per_day) in
      let found =
        add-gives_id entry (keep_if before dated) []
          (keep-Any entry before dated (IsOld-before days now entry h) listed) in
      ground (arith, e, found)

  pub with_surplus-keeps_id :
      (keep : Option ℕ) (old : Targets)
      → has_id (str_id entry.0) old ≡ true
      → has_id (str_id entry.0) (with_surplus keep dated old) ≡ true
  unfolding with_surplus
  with_surplus-keeps_id none old h = h
  with_surplus-keeps_id (some n) old h =
      update-keeps_id (str_id entry.0) old (keep_last_n_targets dated n) (ground arith)

  pub with_surplus-gives_id :
      (keep : Option ℕ) (old : Targets)
      → MustSurplus keep dated entry
      → has_id (str_id entry.0) (with_surplus keep dated old) ≡ true
  unfolding with_surplus
  with_surplus-gives_id none old h = absurd h
  with_surplus-gives_id (some n) old h =
      update-keeps_id (str_id entry.0) old (keep_last_n_targets dated n)
        (ground (arith, keep_last_n-gives_id n dated entry h listed))
