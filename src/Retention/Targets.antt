-- ===== src/Retention/Targets.antt =====
-- The dictionary of components to delete, as the rules fill it.
use rotsy.Base.{
  ◌≡◌, refl, sym, subst, ◌⊎◌, inl, inr, Bool, true, ◌||◌, List, [], ◌∷◌, Text, text_eq, text_eq_iff,
  insert, text_key, keep_if_yes, keep_if_no, any, ltb, All, Any, arith, Bool-cases,
}
use rotsy.Retention.{
  Component, Dated, str_id, Targets, add_targets, insert_newest, sort_newest, update, age_key,
}
use rotsy.Retention.Groups.{members, is_member}

-- Every component stands under its id, and has a property.
abbrev pub AllTargets : (Component → Type 0) → Targets → Type 0
AllTargets R targets = All (λ (p : Text × Component). (p.0 ≡ str_id p.1) × R p.1) targets

abbrev pub has_id : Text → Targets → Bool
has_id id targets = any (λ (p : Text × Component). text_eq p.0 id) targets

module _ (R : Component → Type 0) where
  insert-AllTargets :
      (component : Component) (targets : Targets)
      → R component
      → AllTargets R targets
      → AllTargets R (insert (str_id component) component targets)
  insert-AllTargets component [] r h = ((refl, r), tt)
  insert-AllTargets component ((id, other) ∷ targets) r (o, h) =
      elim (Bool-cases (text_eq id (str_id component))) [
        | inl e ↦ rw e (((text_eq_iff id (str_id component)).0 e, r), h)
        | inr e ↦ rw e (o, insert-AllTargets component targets r h)
      ]

  pub add-AllTargets :
      (entries : List Dated) (targets : Targets)
      → All (λ (entry : Dated). R entry.0) entries
      → AllTargets R targets
      → AllTargets R (add_targets entries targets)
  unfolding add_targets
  add-AllTargets [] targets r h = h
  add-AllTargets (entry ∷ entries) targets (r, rs) h =
      add-AllTargets entries (insert (str_id entry.0) entry.0 targets) rs
        (insert-AllTargets entry.0 targets r h)

  pub update-AllTargets :
      (targets more : Targets)
      → AllTargets R targets
      → AllTargets R more
      → AllTargets R (update targets more)
  unfolding update
  update-AllTargets targets [] h k = h
  update-AllTargets targets ((id, component) ∷ more) h ((e, r), k) =
      update-AllTargets (insert id component targets) more
        (subst (λ i. AllTargets R (insert i component targets)) (sym e)
          (insert-AllTargets component targets r h))
        k

has_id-insert :
    (id key : Text) (component : Component) (targets : Targets)
    → has_id id (insert key component targets) ≡ (text_eq key id || has_id id targets)
has_id-insert id key component [] = refl
has_id-insert id key component ((k, other) ∷ targets) = ground (
  arith,
  has_id-insert id key component targets,
  text_eq_iff k key,
  text_eq_iff k id,
  text_eq_iff key id,
)

pub add-keeps_id :
    (id : Text) (entries : List Dated) (targets : Targets)
    → has_id id targets ≡ true
    → has_id id (add_targets entries targets) ≡ true
unfolding add_targets
add-keeps_id id [] targets h = h
add-keeps_id id (entry ∷ entries) targets h =
    add-keeps_id id entries (insert (str_id entry.0) entry.0 targets)
      (ground (arith, has_id-insert id (str_id entry.0) entry.0 targets))

pub add-gives_id :
    (entry : Dated) (entries : List Dated) (targets : Targets)
    → Any (λ other. other ≡ entry) entries
    → has_id (str_id entry.0) (add_targets entries targets) ≡ true
unfolding add_targets
add-gives_id entry [] targets h = absurd h
add-gives_id entry (e ∷ entries) targets (inl q) =
    let own : has_id (str_id e.0) (insert (str_id e.0) e.0 targets) ≡ true = ground (
      arith,
      has_id-insert (str_id e.0) (str_id e.0) e.0 targets,
      text_eq_iff (str_id e.0) (str_id e.0),
    ) in
    subst
      (λ (x : Dated).
        has_id (str_id x.0) (add_targets entries (insert (str_id e.0) e.0 targets)) ≡ true)
      q (add-keeps_id (str_id e.0) entries (insert (str_id e.0) e.0 targets) own)
add-gives_id entry (e ∷ entries) targets (inr m) =
    add-gives_id entry entries (insert (str_id e.0) e.0 targets) m

pub update-keeps_id :
    (id : Text) (targets more : Targets)
    → (has_id id targets || has_id id more) ≡ true
    → has_id id (update targets more) ≡ true
unfolding update
update-keeps_id id targets [] h = ground arith
update-keeps_id id targets ((k, component) ∷ more) h =
    update-keeps_id id (insert k component targets) more
      (ground (arith, has_id-insert id k component targets))

module _ (P : Dated → Type 0) where
  insert-All :
      (entry : Dated) (entries : List Dated)
      → P entry
      → All P entries
      → All P (insert_newest entry entries)
  unfolding insert_newest
  insert-All entry [] p h = (p, tt)
  insert-All entry (other ∷ entries) p (o, h) =
      elim (Bool-cases (ltb (age_key entry) (age_key other))) [
        | inl e ↦ rw (e, insert_newest) (o, insert-All entry entries p h)
        | inr e ↦ rw (e, insert_newest) (p, (o, h))
      ]

  pub sort-All : (entries : List Dated) → All P entries → All P (sort_newest entries)
  unfolding sort_newest
  sort-All [] h = tt
  sort-All (e ∷ entries) (p, h) = insert-All e (sort_newest entries) p (sort-All entries h)

  insert-Any :
      (entry : Dated) (entries : List Dated)
      → P entry ⊎ Any P entries
      → Any P (insert_newest entry entries)
  unfolding insert_newest
  insert-Any entry [] h = h
  insert-Any entry (other ∷ entries) h = elim (Bool-cases (ltb (age_key entry) (age_key other))) [
    | inl e ↦ rw (e, insert_newest) (swapped h (insert-Any entry entries))
    | inr e ↦ rw (e, insert_newest) h
  ]
    where
      swapped :
          P entry ⊎ (P other ⊎ Any P entries)
          → (P entry ⊎ Any P entries → Any P (insert_newest entry entries))
          → P other ⊎ Any P (insert_newest entry entries)
      swapped (inl p) k = inr (k (inl p))
      swapped (inr (inl o)) k = inl o
      swapped (inr (inr m)) k = inr (k (inr m))

  pub sort-Any : (entries : List Dated) → Any P entries → Any P (sort_newest entries)
  unfolding sort_newest
  sort-Any [] h = h
  sort-Any (e ∷ entries) (inl p) = insert-Any e (sort_newest entries) (inl p)
  sort-Any (e ∷ entries) (inr m) = insert-Any e (sort_newest entries) (inr (sort-Any entries m))

  pub members-All :
      (key : Text) (dated : List Dated)
      → All P dated
      → All (λ entry. P entry × (is_member key entry ≡ true)) (members key dated)
  members-All key [] h = tt
  members-All key (e ∷ dated) (p, h) = elim (Bool-cases (is_member key e)) [
    | inl y ↦ rw (keep_if_yes (is_member key) e dated y) ((p, y), members-All key dated h)
    | inr n ↦ rw (keep_if_no (is_member key) e dated n) (members-All key dated h)
  ]
