-- ===== src/Retention/Decision.antt =====
-- What `_select_for_deletion` returns, against the components of the listing.
use rotsy.Base.{
  ℕ, ◌≡◌, refl, ap, subst, ◌⊎◌, inl, inr, Bool, true, false, Option, none, some, List, [], ◌∷◌, map,
  Text, text_eq, keep_if, any, All, Any, arith, Option-cases,
}
use rotsy.Retention.{
  Component, RetentionPolicy, Dated, str_id, Targets, component_time, split_dated, old_targets,
  with_surplus, select_for_deletion,
}
use rotsy.Retention.Targets.{AllTargets, has_id}
use rotsy.Retention.Policy.{
  IsOld, MaySurplus, MustSurplus, Overflows, MayGo, AreOld, old-AreOld, with_surplus-AllTargets,
  old-gives_id, with_surplus-keeps_id, with_surplus-gives_id,
}

values-All :
    (R : Component → Type 0) (targets : Targets)
    → AllTargets R targets
    → All R (map (λ (p : Text × Component). p.1) targets)
values-All R [] h = tt
values-All R ((id, c) ∷ targets) ((e, r), h) = (r, values-All R targets h)

values-id :
    (R : Component → Type 0) (id : Text) (targets : Targets)
    → AllTargets R targets
    → has_id id targets ≡ true
    → any (λ c. text_eq (str_id c) id) (map (λ (p : Text × Component). p.1) targets) ≡ true
values-id R id [] h k = k
values-id R id ((i, c) ∷ targets) ((e, r), h) k =
    let same : text_eq i id ≡ text_eq (str_id c) id = ap (λ j. text_eq j id) e in
    ground (arith, same, values-id R id targets h)

module _ (fromisoformat : Text → Option ℕ) where
  abbrev pub entry_of : Component → Dated
  entry_of component = (component, component_time fromisoformat component)

  -- Every component with its time.
  abbrev pub dates : List Component → List Dated
  dates components = map entry_of components

  abbrev pub is_undated : Component → Bool
  is_undated component = elim (component_time fromisoformat component) [
    | none ↦ true
    | some _ ↦ false
  ]

  split_dated-dates :
      (components : List Component)
      → split_dated fromisoformat components ≡ (dates components, keep_if is_undated components)
  unfolding split_dated
  split_dated-dates [] = refl
  split_dated-dates (c ∷ components) =
      let rest = split_dated-dates components in
      elim (Option-cases (component_time fromisoformat c)) [
        | inl e ↦ ground (arith, e, rest)
        | inr (t, e) ↦ ground (arith, e, rest)
      ]

  -- A component of the listing that a rule of the policy hits.
  abbrev pub MayDelete : RetentionPolicy → List Component → ℕ → Component → Type 0
  MayDelete policy components now component =
      Any (λ other. other ≡ component) components
      × (IsOld policy.delete_older_than_days now (entry_of component)
          ⊎ MaySurplus policy.keep_last_n (dates components) (entry_of component))

  abbrev pub IsSelection :
      RetentionPolicy → List Component → ℕ → Option (List Component × List Component) → Type 0
  IsSelection policy components now none = Overflows policy.delete_older_than_days now
  IsSelection policy components now (some (targets, undated)) =
      All (MayDelete policy components now) targets × (undated ≡ keep_if is_undated components)

  abbrev Listed : List Component → Dated → Type 0
  Listed components entry =
      (entry.1 ≡ component_time fromisoformat entry.0) × Any (λ other. other ≡ entry.0) components

  more-Listed :
      (c : Component) (components : List Component) (dated : List Dated)
      → All (Listed components) dated
      → All (Listed (c ∷ components)) dated
  more-Listed c components [] h = tt
  more-Listed c components (e ∷ dated) ((t, m), h) = ((t, inr m), more-Listed c components dated h)

  dates-Listed : (components : List Component) → All (Listed components) (dates components)
  dates-Listed [] = tt
  dates-Listed (c ∷ components) =
      ((refl, inl refl), more-Listed c components (dates components) (dates-Listed components))

  MayGo-MayDelete :
      (policy : RetentionPolicy) (components : List Component) (now : ℕ) (selected : List Component)
      → All
          (MayGo
            (Listed components)
            policy.delete_older_than_days
            policy.keep_last_n
            now
            (dates components))
          selected
      → All (MayDelete policy components now) selected
  MayGo-MayDelete policy components now [] h = tt
  MayGo-MayDelete policy components now (c ∷ selected) ((t, (e, m), go), h) =
      let Goes = λ (x : Option ℕ).
        IsOld policy.delete_older_than_days now (c, x)
        ⊎ MaySurplus policy.keep_last_n (dates components) (c, x) in
      ((m, subst Goes e go), MayGo-MayDelete policy components now selected h)

  -- The selection from the split listing and the targets by age.
  abbrev selected_from :
      RetentionPolicy
      → List Dated × List Component
      → Option Targets
      → Option (List Component × List Component)
  selected_from policy (dated, undated) old = elim old [
    | none ↦ none
    | some old ↦
        some
          (map (λ (p : Text × Component). p.1) (with_surplus policy.keep_last_n dated old), undated)
  ]

  select-from :
      (policy : RetentionPolicy) (components : List Component) (now : ℕ)
      → select_for_deletion fromisoformat components policy now
        ≡ selected_from policy
            (dates components, keep_if is_undated components)
            (old_targets policy.delete_older_than_days (dates components) now)
  unfolding select_for_deletion
  select-from policy components now =
      ap
        (λ (split : List Dated × List Component).
          selected_from policy split (old_targets policy.delete_older_than_days split.0 now))
        (split_dated-dates components)

  -- A run of the rules returns unless the days reach back before the year 1. It selects only
  -- listed components that are older than the days, or of an image with more than `n` versions at
  -- least as recent, itself included; so none of unknown age by the days. The others of unknown
  -- age are reported.
  pub select_for_deletion-IsSelection :
      (components : List Component) (policy : RetentionPolicy) (now : ℕ)
      → IsSelection policy components now (select_for_deletion fromisoformat components policy now)
  select_for_deletion-IsSelection components policy now =
      let dated = dates components in
      let days = policy.delete_older_than_days in
      let good = dates-Listed components in
      rw (select-from policy components now) (
        shown (old_targets days dated now)
          (old-AreOld (Listed components) policy.keep_last_n now dated good days))
    where
      shown :
          (old : Option Targets)
          → AreOld
              (Listed components)
              policy.keep_last_n
              now
              (dates components)
              (dates-Listed components)
              policy.delete_older_than_days
              old
          → IsSelection policy components now
              (selected_from policy (dates components, keep_if is_undated components) old)
      shown none h = h
      shown (some old) h =
          let all =
            with_surplus-AllTargets (Listed components) policy.delete_older_than_days now
              (dates components) (dates-Listed components) policy.keep_last_n old h in
          (MayGo-MayDelete policy components now _ (values-All _ _ all), refl)

  listed-dates :
      (c : Component) (components : List Component)
      → Any (λ other. other ≡ c) components
      → Any (λ other. other ≡ entry_of c) (dates components)
  listed-dates c [] h = h
  listed-dates c (d ∷ components) (inl e) = inl (ap entry_of e)
  listed-dates c (d ∷ components) (inr m) = inr (listed-dates c components m)

  -- A listed component that is older than the days, or of whose image `n` versions are more
  -- recent, is selected under its id whenever the days do not reach back before the year 1.
  pub select_for_deletion_complete :
      (components : List Component) (policy : RetentionPolicy) (now : ℕ) (component : Component)
      → Any (λ other. other ≡ component) components
      → IsOld policy.delete_older_than_days now (entry_of component)
        ⊎ MustSurplus policy.keep_last_n (dates components) (entry_of component)
      → Overflows policy.delete_older_than_days now
        ⊎ ((targets undated : List Component) × (select_for_deletion fromisoformat components policy
                now
              ≡ some (targets, undated))
            × (any (λ c. text_eq (str_id c) (str_id component)) targets ≡ true))
  select_for_deletion_complete components policy now component m must =
      rw (select-from policy components now) (
        shown (old_targets policy.delete_older_than_days (dates components) now) refl (
          old-AreOld (Listed components) policy.keep_last_n now (dates components)
            (dates-Listed components) policy.delete_older_than_days))
    where
      shown :
          (old : Option Targets)
          → old_targets policy.delete_older_than_days (dates components) now ≡ old
          → AreOld
              (Listed components)
              policy.keep_last_n
              now
              (dates components)
              (dates-Listed components)
              policy.delete_older_than_days
              old
          → Overflows policy.delete_older_than_days now
            ⊎ ((targets undated : List Component) × (selected_from policy
                    (dates components, keep_if is_undated components)
                    old
                  ≡ some (targets, undated))
                × (any (λ c. text_eq (str_id c) (str_id component)) targets ≡ true))
      shown none e h = inl h
      shown (some old) e h =
          let dated = dates components in
          let listed = listed-dates component components m in
          let all =
            with_surplus-AllTargets (Listed components) policy.delete_older_than_days now dated
              (dates-Listed components) policy.keep_last_n old h in
          let found : has_id (str_id component) (with_surplus policy.keep_last_n dated old) ≡ true =
            elim must [
              | inl is_old ↦
                  with_surplus-keeps_id now dated (entry_of component) listed policy.keep_last_n old
                    (old-gives_id now dated (entry_of component) listed
                      policy.delete_older_than_days old is_old e)
              | inr surplus ↦
                  with_surplus-gives_id now dated (entry_of component) listed policy.keep_last_n old
                    surplus
            ] in
          inr (_, _, refl, values-id _ (str_id component) _ all found)
