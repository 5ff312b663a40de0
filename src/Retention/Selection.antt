-- ===== src/Retention/Selection.antt =====
-- Which components a policy selects, in terms of ages and of the versions of each image.
use rotsy.Base.{
  ℕ, ◌≤◌, ◌<◌, ◌≡◌, sym, ap, subst, ◌∙◌, inl, inr, true, Option, List, [], ◌∷◌, Text, text_eq_iff,
  Dict, drop, All, All-map, Any,
}
use rotsy.Retention.{
  Component, Dated, str_id, group_key, Targets, add_targets, sort_newest, surplus_targets,
  group_by_name, keep_last_n_targets,
}
use rotsy.Retention.Order.{
  count, is_recent, is_newer, sort-IsSorted, count-sort, dropped-recent, newer-dropped, drop-below,
}
use rotsy.Retention.Groups.{members, is_member, group-members, group-there}
use rotsy.Retention.Targets.{
  AllTargets, has_id, add-AllTargets, add-keeps_id, add-gives_id, sort-All, sort-Any, members-All,
}

-- The versions of an entry's own image.
abbrev pub versions : List Dated → Dated → List Dated
versions dated entry = members (group_key entry.0) dated

-- More than `n` versions of the image are at least as recent, the entry itself included.
abbrev pub IsSurplus : ℕ → List Dated → Dated → Type 0
IsSurplus n dated entry = n < count (is_recent entry) (versions dated entry)

-- The part of `keep_last_n`, where every entry of the listing has a property.
module _ (P : Dated → Type 0) (n : ℕ) (dated : List Dated) where
  abbrev pub Dropped : Component → Type 0
  Dropped component = (t : Option ℕ) × P (component, t) × IsSurplus n dated (component, t)

  Dropped-group :
      (key : Text) (sorted : List Dated)
      → All (λ entry. P entry × (is_member key entry ≡ true)) sorted
      → All (λ (entry : Dated). n < count (is_recent entry) (members key dated)) sorted
      → All (λ (entry : Dated). Dropped entry.0) sorted
  Dropped-group key [] h k = tt
  Dropped-group key ((component, t) ∷ sorted) ((p, m), h) (r, k) =
      let own : group_key component ≡ key = (text_eq_iff (group_key component) key).0 m in
      (
        (t, p, subst (λ x. n < count (is_recent (component, t)) (members x dated)) (sym own) r),
        Dropped-group key sorted h k,
      )

  recount :
      (key : Text) (entries : List Dated)
      → All
          (λ (entry : Dated). n < count (is_recent entry) (sort_newest (members key dated)))
          entries
      → All (λ (entry : Dated). n < count (is_recent entry) (members key dated)) entries
  recount key entries h =
      All-map (λ entry r. subst (λ m. n < m) (count-sort (is_recent entry) (members key dated)) r)
        entries h

  surplus-AllTargets :
      (by_name : Dict Text (List Dated)) (targets : Targets)
      → All P dated
      → All (λ (p : Text × List Dated). p.1 ≡ members p.0 dated) by_name
      → AllTargets Dropped targets
      → AllTargets Dropped (surplus_targets n by_name targets)
  unfolding surplus_targets
  surplus-AllTargets [] targets good h k = k
  surplus-AllTargets ((key, entries) ∷ by_name) targets good (e, h) k =
      let group = members key dated in
      let Both = λ (entry : Dated). P entry × (is_member key entry ≡ true) in
      let kept =
        drop-below Both n (sort_newest group)
          (sort-All Both group (members-All P key dated good)) in
      let many = recount key _ (dropped-recent n (sort_newest group) (sort-IsSorted group)) in
      surplus-AllTargets by_name (add_targets (drop n (sort_newest entries)) targets) good h (
        add-AllTargets Dropped (drop n (sort_newest entries)) targets
          (subst (λ es. All (λ (entry : Dated). Dropped entry.0) (drop n (sort_newest es))) (sym e)
            (Dropped-group key (drop n (sort_newest group)) kept many))
          k)

  pub keep_last_n-AllTargets : All P dated → AllTargets Dropped (keep_last_n_targets dated n)
  unfolding keep_last_n_targets
  keep_last_n-AllTargets good =
      surplus-AllTargets (group_by_name [] dated) [] good (group-members dated) tt

module _ (n : ℕ) (dated : List Dated) (entry : Dated)
    (newer : n ≤ count (is_newer entry) (versions dated entry)) where
  surplus-keeps_id :
      (id : Text) (by_name : Dict Text (List Dated)) (targets : Targets)
      → has_id id targets ≡ true
      → has_id id (surplus_targets n by_name targets) ≡ true
  unfolding surplus_targets
  surplus-keeps_id id [] targets h = h
  surplus-keeps_id id ((key, entries) ∷ by_name) targets h =
      surplus-keeps_id id by_name (add_targets (drop n (sort_newest entries)) targets)
        (add-keeps_id id (drop n (sort_newest entries)) targets h)

  surplus-gives_id :
      (by_name : Dict Text (List Dated)) (targets : Targets)
      → All (λ (p : Text × List Dated). p.1 ≡ members p.0 dated) by_name
      → Any
          (λ (p : Text × List Dated). Any (λ other. other ≡ entry) p.1 × (p.0 ≡ group_key entry.0))
          by_name
      → has_id (str_id entry.0) (surplus_targets n by_name targets) ≡ true
  unfolding surplus_targets
  surplus-gives_id [] targets h m = absurd m
  surplus-gives_id ((key, entries) ∷ by_name) targets (e, h) (inl (m, own)) =
      let same : entries ≡ versions dated entry = e ∙ ap (λ k. members k dated) own in
      let enough : n ≤ count (is_newer entry) (sort_newest entries) =
        subst (λ c. n ≤ c)
          (sym (count-sort (is_newer entry) entries ∙ ap (count (is_newer entry)) same)) newer in
      surplus-keeps_id (str_id entry.0) by_name (add_targets (drop n (sort_newest entries)) targets)
        (add-gives_id entry (drop n (sort_newest entries)) targets (
          newer-dropped n entry (sort_newest entries) (sort-IsSorted entries)
            (sort-Any (λ other. other ≡ entry) entries m) enough))
  surplus-gives_id ((key, entries) ∷ by_name) targets (e, h) (inr m) =
      surplus-gives_id by_name (add_targets (drop n (sort_newest entries)) targets) h m

  pub keep_last_n-gives_id :
      Any (λ other. other ≡ entry) dated
      → has_id (str_id entry.0) (keep_last_n_targets dated n) ≡ true
  unfolding keep_last_n_targets
  keep_last_n-gives_id m =
      surplus-gives_id (group_by_name [] dated) [] (group-members dated) (group-there dated entry m)
