-- ===== src/Retention.antt =====
-- What a retention policy deletes: backend/app/services/retention.py, with `component_timestamps`
-- of backend/app/services/images.py. The JSON objects of Nexus are records of the keys that are
-- read. Instants are microseconds since the year 1 in UTC, so that `datetime.min` is 0. The API
-- admits no negative number of days, minutes or versions. `fromisoformat` is the parser of the
-- `datetime` module.
pub mod Order
pub mod Groups
pub mod Targets
pub mod Selection
pub mod Policy
pub mod Decision
pub mod Run
pub mod Schedule
mod Tests
use rotsy.Base.{
  or_blank, contains, ℕ, zero, suc, ◌+◌, ◌-◌, ◌*◌, Bool, true, false, Option, none, some, List, [],
  ◌∷◌, ◌++◌, map, Text, text, text_eq, ltb, ◌==◌, if◌then◌else◌, keep_if, any, length, drop,
  non_empty, Dict, lookup, insert, text_key,
}

pub record Asset : Type 0 where
  pub path : Option Text
  pub blob_created : Option Text
  pub last_modified : Option Text

-- A missing key is `none`.
pub record Component : Type 0 where
  pub id : Option Text
  pub group : Option Text
  pub name : Option Text
  pub version : Option Text
  pub assets : List Asset

pub record RetentionPolicy : Type 0 where
  pub id : ℕ
  pub repo : Text
  pub keep_last_n : Option ℕ
  pub delete_older_than_days : Option ℕ
  pub enabled : Bool
  pub last_run_at : Option ℕ
  pub interval_minutes : Option ℕ
  pub next_run_at : Option ℕ

-- `a < b` on texts, by code points.
unfoldable pub precedes : Text → Text → Bool
precedes s [] = false
precedes [] (d ∷ t) = true
precedes (c ∷ s) (d ∷ t) = if c == d then precedes s t else ltb c d

-- The first of the texts that are given, and the others.
abbrev pub given : List (Option Text) → List Text
given [] = []
given (t ∷ ts) = elim (non_empty t) [ none ↦ given ts | some s ↦ s ∷ given ts ]

-- `min` and `max` over the texts, from the first on.
unfoldable pub least : Text → List Text → Text
unfolding precedes
least t [] = t
least t (u ∷ us) = least (if precedes u t then u else t) us

unfoldable pub greatest : Text → List Text → Text
unfolding precedes
greatest t [] = t
greatest t (u ∷ us) = greatest (if precedes t u then u else t) us

-- `last_modified or blob_created`
abbrev pub modified_of : Asset → Option Text
modified_of asset = elim (non_empty asset.last_modified) [
  | some t ↦ some t
  | none ↦ asset.blob_created
]

abbrev is_manifest : Asset → Bool
is_manifest asset = contains (text "/manifests/") (or_blank asset.path)

-- `component_timestamps`: when it was created and last modified.
unfoldable pub component_timestamps : Component → Option Text × Option Text
unfolding least greatest contains
component_timestamps component = elim (keep_if is_manifest component.assets) [
  | manifest ∷ _ ↦ (non_empty manifest.blob_created, non_empty (modified_of manifest))
  | [] ↦
      let created : Option Text =
        elim (given (map (λ (a : Asset). a.blob_created) component.assets)) [
          | [] ↦ none
          | t ∷ ts ↦ some (least t ts)
        ] in
      let modified : Option Text = elim (given (map modified_of component.assets)) [
        | [] ↦ none
        | t ∷ ts ↦ some (greatest t ts)
      ] in
      (created, modified)
]

unfoldable pub lstrip_slashes : Text → Text
lstrip_slashes [] = []
lstrip_slashes (c ∷ s) = if c == b'/' then lstrip_slashes s else c ∷ s

unfoldable pub group_key : Component → Text
unfolding lstrip_slashes
group_key component =
    lstrip_slashes (or_blank component.group ++ (text "/" ++ or_blank component.name))

-- `str(component.get("id"))`
abbrev pub str_id : Component → Text
str_id component = elim component.id [ none ↦ text "None" | some id ↦ id ]

-- A component with its timestamp, if that is known.
abbrev pub Dated : Type 0
Dated = Component × Option ℕ

-- The sort key of an entry, with `datetime.min` for an unknown age.
abbrev pub age_key : Dated → ℕ
age_key entry = elim entry.1 [ none ↦ 0 | some timestamp ↦ timestamp ]

-- A stable sort, newest first: an entry goes before those that are no newer.
unfoldable pub insert_newest : Dated → List Dated → List Dated
insert_newest entry [] = entry ∷ []
insert_newest entry (other ∷ entries) =
    let rest = insert_newest entry entries in
    if ltb (age_key entry) (age_key other) then other ∷ rest else entry ∷ other ∷ entries

unfoldable pub sort_newest : List Dated → List Dated
unfolding insert_newest
sort_newest [] = []
sort_newest (entry ∷ entries) = insert_newest entry (sort_newest entries)

-- `by_name.setdefault(_group_key(component), []).append(...)` for each entry.
abbrev pub entries_at : Text → Dict Text (List Dated) → List Dated
entries_at key by_name = elim (lookup key by_name) [ none ↦ [] | some entries ↦ entries ]

unfoldable pub group_by_name : Dict Text (List Dated) → List Dated → Dict Text (List Dated)
unfolding group_key
group_by_name by_name [] = by_name
group_by_name by_name (entry ∷ dated) =
    let key = group_key entry.0 in
    group_by_name (insert key (entries_at key by_name ++ entry ∷ []) by_name) dated

abbrev pub Targets : Type 0
Targets = Dict Text Component

unfoldable pub add_targets : List Dated → Targets → Targets
add_targets [] targets = targets
add_targets (entry ∷ entries) targets =
    add_targets entries (insert (str_id entry.0) entry.0 targets)

-- The loop over `by_name.values()`.
unfoldable pub surplus_targets : ℕ → Dict Text (List Dated) → Targets → Targets
unfolding add_targets sort_newest
surplus_targets n [] targets = targets
surplus_targets n ((name, entries) ∷ by_name) targets =
    surplus_targets n by_name (add_targets (drop n (sort_newest entries)) targets)

unfoldable pub keep_last_n_targets : List Dated → ℕ → Targets
unfolding surplus_targets group_by_name
keep_last_n_targets dated n = surplus_targets n (group_by_name [] dated) []

abbrev pub microseconds_per_day : ℕ
microseconds_per_day = 86400000000

abbrev pub is_before : ℕ → Dated → Bool
is_before cutoff entry = elim entry.1 [ none ↦ false | some timestamp ↦ ltb timestamp cutoff ]

-- A cutoff before the year 1 is an `OverflowError`.
unfoldable pub age_rule_targets : List Dated → ℕ → ℕ → Option Targets
unfolding add_targets
age_rule_targets dated max_age_days now =
    let span = max_age_days * microseconds_per_day in
    if ltb now span then none else some (add_targets (keep_if (is_before (now - span)) dated) [])

-- `dict.update`
unfoldable pub update : Targets → Targets → Targets
update targets [] = targets
update targets ((id, component) ∷ more) = update (insert id component targets) more

-- The two rules of `_select_for_deletion`, where they are set.
unfoldable pub old_targets : Option ℕ → List Dated → ℕ → Option Targets
unfolding age_rule_targets
old_targets none dated now = some []
old_targets (some days) dated now = age_rule_targets dated days now

unfoldable pub with_surplus : Option ℕ → List Dated → Targets → Targets
unfolding keep_last_n_targets update
with_surplus none dated old = old
with_surplus (some n) dated old = update old (keep_last_n_targets dated n)

module _ (fromisoformat : Text → Option ℕ) where
  -- `_parse_iso`; the replacement of `Z` and the zone of a naive time are of the parser.
  abbrev pub component_time : Component → Option ℕ
  component_time component = elim (non_empty (component_timestamps component).0) [
    | none ↦ none
    | some t ↦ fromisoformat t
  ]

  unfoldable pub split_dated : List Component → List Dated × List Component
  unfolding component_timestamps
  split_dated [] = ([], [])
  split_dated (component ∷ components) =
      let (dated, undated) = split_dated components in
      let timestamp = component_time component in
      (
        (component, timestamp) ∷ dated,
        elim timestamp [ none ↦ component ∷ undated | some _ ↦ undated ],
      )

  -- The components to delete, and those of unknown age.
  unfoldable pub select_for_deletion :
      List Component → RetentionPolicy → ℕ → Option (List Component × List Component)
  unfolding split_dated old_targets with_surplus
  select_for_deletion components policy now =
      let (dated, undated) = split_dated components in
      elim (old_targets policy.delete_older_than_days dated now) [
        | none ↦ none
        | some old ↦
            let to_delete = with_surplus policy.keep_last_n dated old in
            some (map (λ (p : Text × Component). p.1) to_delete, undated)
      ]
