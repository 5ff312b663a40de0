-- ===== src/Retention/Groups.antt =====
-- `by_name` holds, under each image's key, the entries of that image in their order.
use rotsy.Base.{
  ◌≡◌, refl, sym, ap, subst, ◌∙◌, inl, inr, Bool, true, false, List, [], ◌∷◌, ◌++◌, Text, text_eq,
  text_eq_iff, Dict, insert, lookup-insert, text_key, if◌then◌else◌, keep_if, keep_if_yes,
  keep_if_no, All, All-map, Any, arith, Bool-cases,
}
use mathlib.Core.List.{append_assoc, append-nil}
use rotsy.Retention.{Dated, group_key, entries_at, group_by_name}

abbrev pub is_member : Text → Dated → Bool
is_member key entry = text_eq (group_key entry.0) key

-- The entries of one image.
abbrev pub members : Text → List Dated → List Dated
members key dated = keep_if (is_member key) dated

entries_at-insert :
    (key other : Text) (entries : List Dated) (by_name : Dict Text (List Dated))
    → entries_at other (insert key entries by_name)
      ≡ (if text_eq key other then entries else entries_at other by_name)
entries_at-insert key other entries by_name =
    ground (arith, lookup-insert key other entries by_name)

entries_at-group :
    (key : Text) (by_name : Dict Text (List Dated)) (dated : List Dated)
    → entries_at key (group_by_name by_name dated) ≡ entries_at key by_name ++ members key dated
unfolding group_by_name
entries_at-group key by_name [] = sym (append-nil _)
entries_at-group key by_name (entry ∷ dated) =
    let here = group_key entry.0 in
    let old = entries_at here by_name in
    let step = entries_at-insert here key (old ++ entry ∷ []) by_name in
    entries_at-group key (insert here (old ++ entry ∷ []) by_name) dated
    ∙ elim (Bool-cases (text_eq here key)) [
      | inl e ↦
          let same : here ≡ key = (text_eq_iff here key).0 e in
          rw
            (
              step,
              e,
              ap (λ k. entries_at k by_name) same,
              keep_if_yes (is_member key) entry dated e,
            )
            (append_assoc (entries_at key by_name) (entry ∷ []) (members key dated))
      | inr e ↦ rw (step, e, keep_if_no (is_member key) entry dated e)
    ]

abbrev Dictionary : Type 0
Dictionary = Dict Text (List Dated)

-- No key stands twice.
abbrev pub HasKeysOnce : Dictionary → Type 0
HasKeysOnce [] = Unit
HasKeysOnce ((key, entries) ∷ by_name) =
    All (λ (p : Text × List Dated). text_eq key p.0 ≡ false) by_name × HasKeysOnce by_name

insert-differs :
    (key other : Text) (entries : List Dated) (by_name : Dictionary)
    → text_eq other key ≡ false
    → All (λ (p : Text × List Dated). text_eq other p.0 ≡ false) by_name
    → All (λ (p : Text × List Dated). text_eq other p.0 ≡ false) (insert key entries by_name)
insert-differs key other entries [] n h = (n, tt)
insert-differs key other entries ((k, old) ∷ by_name) n (m, h) = elim (Bool-cases (text_eq k key)) [
  | inl e ↦ rw e (m, h)
  | inr e ↦ rw e (m, insert-differs key other entries by_name n h)
]

insert-HasKeysOnce :
    (key : Text) (entries : List Dated) (by_name : Dictionary)
    → HasKeysOnce by_name
    → HasKeysOnce (insert key entries by_name)
insert-HasKeysOnce key entries [] h = (tt, tt)
insert-HasKeysOnce key entries ((k, old) ∷ by_name) (n, h) = elim (Bool-cases (text_eq k key)) [
  | inl e ↦ rw e (n, h)
  | inr e ↦
      rw e (insert-differs key k entries by_name e n, insert-HasKeysOnce key entries by_name h)
]

group-HasKeysOnce :
    (by_name : Dictionary) (dated : List Dated)
    → HasKeysOnce by_name
    → HasKeysOnce (group_by_name by_name dated)
unfolding group_by_name
group-HasKeysOnce by_name [] h = h
group-HasKeysOnce by_name (entry ∷ dated) h =
    let here = group_key entry.0 in
    let entries = entries_at here by_name ++ entry ∷ [] in
    group-HasKeysOnce (insert here entries by_name) dated
      (insert-HasKeysOnce here entries by_name h)

-- What stands in the dictionary is what is found there.
found_self :
    (by_name : Dictionary)
    → HasKeysOnce by_name
    → All (λ (p : Text × List Dated). entries_at p.0 by_name ≡ p.1) by_name
found_self [] h = tt
found_self ((key, entries) ∷ by_name) (n, h) =
    (ground (arith, (text_eq_iff key key).1 refl), later by_name by_name n (found_self by_name h))
  where
    later :
        (rest some_of : Dictionary)
        → All (λ (p : Text × List Dated). text_eq key p.0 ≡ false) some_of
        → All (λ (p : Text × List Dated). entries_at p.0 rest ≡ p.1) some_of
        → All (λ (p : Text × List Dated). entries_at p.0 ((key, entries) ∷ rest) ≡ p.1) some_of
    later rest [] n h = tt
    later rest ((k, es) ∷ some_of) (m, n) (o, h) = (ground (arith, m, o), later rest some_of n h)

-- Every group that the loop sees is that of all the members of its image.
pub group-members :
    (dated : List Dated)
    → All (λ (p : Text × List Dated). p.1 ≡ members p.0 dated) (group_by_name [] dated)
group-members dated =
    All-map (λ p e. sym e ∙ entries_at-group p.0 [] dated) (group_by_name [] dated)
      (found_self (group_by_name [] dated) (group-HasKeysOnce [] dated tt))

found_there :
    (key : Text) (entry : Dated) (by_name : Dictionary)
    → Any (λ other. other ≡ entry) (entries_at key by_name)
    → Any (λ (p : Text × List Dated). Any (λ other. other ≡ entry) p.1 × (p.0 ≡ key)) by_name
found_there key entry [] h = absurd h
found_there key entry ((k, es) ∷ by_name) h =
    let Is : List Dated → Type 0 = λ entries. Any (λ other. other ≡ entry) entries in
    elim (Bool-cases (text_eq k key)) [
      | inl e ↦
          let q : entries_at key ((k, es) ∷ by_name) ≡ es = ground (arith, e) in
          inl (subst Is q h, (text_eq_iff k key).0 e)
      | inr e ↦
          let q : entries_at key ((k, es) ∷ by_name) ≡ entries_at key by_name = ground (arith, e) in
          inr (found_there key entry by_name (subst Is q h))
    ]

member_of_dated :
    (key : Text) (entry : Dated) (dated : List Dated)
    → is_member key entry ≡ true
    → Any (λ other. other ≡ entry) dated
    → Any (λ other. other ≡ entry) (members key dated)
member_of_dated key entry [] h m = m
member_of_dated key entry (e ∷ dated) h (inl q) =
    rw (keep_if_yes (is_member key) e dated (ap (is_member key) q ∙ h)) (inl q)
member_of_dated key entry (e ∷ dated) h (inr m) = elim (Bool-cases (is_member key e)) [
  | inl y ↦ rw (keep_if_yes (is_member key) e dated y) (inr (member_of_dated key entry dated h m))
  | inr n ↦ rw (keep_if_no (is_member key) e dated n) (member_of_dated key entry dated h m)
]

-- An entry is in the group of its image.
pub group-there :
    (dated : List Dated) (entry : Dated)
    → Any (λ other. other ≡ entry) dated
    → Any
        (λ (p : Text × List Dated). Any (λ other. other ≡ entry) p.1 × (p.0 ≡ group_key entry.0))
        (group_by_name [] dated)
group-there dated entry m =
    let key = group_key entry.0 in
    found_there key entry (group_by_name [] dated) (
      rw (entries_at-group key [] dated)
        (member_of_dated key entry dated ((text_eq_iff key key).1 refl) m))
