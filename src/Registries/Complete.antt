-- ===== src/Registries/Complete.antt =====
-- No Docker repository that the settings name is dropped by a discovery.
use rotsy.Base.{
  ℕ, ◌≡◌, refl, sym, subst, ◌⊎◌, inl, inr, Bool, true, false, ◌&&◌, ◌||◌, Option, none, some, List,
  [], ◌∷◌, Text, Dict, lookup, insert, text_key, lookup-insert, lookup-insert_self, All, All-map,
  Bool-cases, Option-cases, arith,
}
use rotsy.Registries.{DockerRegistry, DiscoveryResult}
use rotsy.Registries.Discovery.{
  Row, Nexus, Built, registry, reason, named, source_settings, is_docker, add_built, add_rows,
  empty_result, registry_row_from_settings, from_repository_settings, fetch_repository_settings,
  learned_nothing, is_empty, ask, list_rows,
}
use rotsy.Registries.Known.{settings_rows}

abbrev has_key : {A : Type 0} → Text → Dict Text A → Bool
has_key k d = elim (lookup k d) [ none ↦ false | some v ↦ true ]

-- A discovery knows a repository: it has its registry, or the reason why there is none.
abbrev pub knows : Text → DiscoveryResult → Bool
knows name result = has_key name result.registries || has_key name result.unresolved

has_key-insert :
    {A : Type 0} (k j : Text) (v : A) (d : Dict Text A)
    → has_key j d ≡ true
    → has_key j (insert k v d) ≡ true
has_key-insert k j v d h = ground (arith, lookup-insert k j v d, h)

has_key-insert_self :
    {A : Type 0} (k : Text) (v : A) (d : Dict Text A) → has_key k (insert k v d) ≡ true
has_key-insert_self k v d = ground (arith, lookup-insert_self k v d)

or_map :
    (a b c d : Bool) → (a ≡ true → c ≡ true) → (b ≡ true → d ≡ true) → a || b ≡ true → c || d ≡ true
or_map a b c d f g h = ground (arith, f, g, h)

add_built-knows :
    (name : Text) (o : Option (Text × Built)) (result : DiscoveryResult)
    → knows name result ≡ true
    → knows name (add_built o result) ≡ true
add_built-knows name none result h = h
add_built-knows name (some (k, registry r)) result h =
    or_map (has_key name result.registries) (has_key name result.unresolved) _ _
      (has_key-insert k name r result.registries) (λ q. q) h
add_built-knows name (some (k, reason why)) result h =
    or_map (has_key name result.registries) (has_key name result.unresolved) _ _ (λ q. q)
      (has_key-insert k name why result.unresolved) h

add_rows-knows :
    (f : Row → Option (Text × Built)) (name : Text) (rows : List Row) (result : DiscoveryResult)
    → knows name result ≡ true
    → knows name (add_rows f rows result) ≡ true
unfolding add_rows
add_rows-knows f name [] result h = h
add_rows-knows f name (row ∷ rows) result h =
    add_rows-knows f name rows (add_built (f row) result) (add_built-knows name (f row) result h)

-- The repository that a row gives is known.
abbrev KnownBy : DiscoveryResult → Option (Text × Built) → Type 0
KnownBy result none = Unit
KnownBy result (some (name, built)) = knows name result ≡ true

add_built-KnownBy :
    (o : Option (Text × Built)) (result : DiscoveryResult) → KnownBy (add_built o result) o
add_built-KnownBy none result = tt
add_built-KnownBy (some (k, registry r)) result =
    ground (arith, has_key-insert_self k r result.registries)
add_built-KnownBy (some (k, reason why)) result =
    ground (arith, has_key-insert_self k why result.unresolved)

KnownBy-keep :
    (f : Row → Option (Text × Built)) (rows : List Row) (result : DiscoveryResult)
    (o : Option (Text × Built))
    → KnownBy result o
    → KnownBy (add_rows f rows result) o
KnownBy-keep f rows result none h = tt
KnownBy-keep f rows result (some (name, built)) h = add_rows-knows f name rows result h

add_rows-KnownBy :
    (f : Row → Option (Text × Built)) (rows : List Row) (result : DiscoveryResult)
    → All (λ row. KnownBy (add_rows f rows result) (f row)) rows
unfolding add_rows
add_rows-KnownBy f [] result = tt
add_rows-KnownBy f (row ∷ rows) result =
    let next = add_built (f row) result in
    (
      KnownBy-keep f rows next (f row) (add_built-KnownBy (f row) result),
      add_rows-KnownBy f rows next,
    )

learned_nothing-knows :
    (name : Text) (result : DiscoveryResult)
    → learned_nothing (some result) ≡ true
    → knows name result ≡ false
learned_nothing-knows name result h = empty_knows result.registries result.unresolved h
  where
    empty_knows :
        (r : Dict Text DockerRegistry) (u : Dict Text Text)
        → is_empty r && is_empty u ≡ true
        → has_key name r || has_key name u ≡ false
    empty_knows [] [] q = refl
    empty_knows [] (x ∷ u) q = cc
    empty_knows (x ∷ r) u q = cc

module _ (lower : Text → Text) (host : Text) (is_error : ℕ → Bool) (nexus : Nexus) where
  -- A row of another format or without a name, or one whose repository the discovery knows.
  abbrev pub IsSkippedOrKnown : DiscoveryResult → Row → Type 0
  IsSkippedOrKnown result row =
      (is_docker lower row ≡ false)
      ⊎ ((named row.name ≡ none)
          ⊎ ((name : Text) × (named row.name ≡ some name) × (knows name result ≡ true)))

  row-IsSkippedOrKnown :
      (result : DiscoveryResult) (row : Row)
      → KnownBy result (registry_row_from_settings lower host row)
      → IsSkippedOrKnown result row
  unfolding registry_row_from_settings
  row-IsSkippedOrKnown result row h = elim (Bool-cases (is_docker lower row)) [
    | inr e ↦ inl e
    | inl e ↦ elim (Option-cases (named row.name)) [
      | inl q ↦ inr (inl q)
      | inr (name, q) ↦ inr (inr (name, q, ground (arith, e, q, h)))
    ]
  ]

  abbrev learned : List Row → DiscoveryResult
  learned rows =
      add_rows (registry_row_from_settings lower host) rows (empty_result source_settings)

  -- A result that knows nothing has had no row that counts.
  nothing-IsSkipped :
      (rows : List Row) (result : DiscoveryResult) (row : Row)
      → learned_nothing (some (learned rows)) ≡ true
      → IsSkippedOrKnown (learned rows) row
      → IsSkippedOrKnown result row
  nothing-IsSkipped rows result row e (inl h) = inl h
  nothing-IsSkipped rows result row e (inr (inl h)) = inr (inl h)
  nothing-IsSkipped rows result row e (inr (inr (name, q, h))) =
      ground (arith, h, learned_nothing-knows name (learned rows) e)

  settings_complete :
      (rows : List Row)
      → fetch_repository_settings nexus ≡ some rows
      → All (IsSkippedOrKnown (ask lower host is_error nexus)) rows
  unfolding ask from_repository_settings
  settings_complete rows e =
      let f = registry_row_from_settings lower host in
      let known =
        All-map (row-IsSkippedOrKnown (learned rows)) rows
          (add_rows-KnownBy f rows (empty_result source_settings)) in
      let settings : from_repository_settings lower host nexus ≡ some (learned rows) =
        rw (e, from_repository_settings) refl in
      elim (Bool-cases (learned_nothing (some (learned rows)))) [
        | inl n ↦
            All-map (λ row. nothing-IsSkipped rows (ask lower host is_error nexus) row n) rows known
        | inr n ↦
            let v : ask lower host is_error nexus ≡ learned rows = rw (settings, n, ask) refl in
            subst (λ r. All (IsSkippedOrKnown r) rows) (sym v) known
      ]

  -- Each Docker repository that the settings name is known to the discovery: it has its registry or
  -- the reason why there is none.
  pub ask_complete : All (IsSkippedOrKnown (ask lower host is_error nexus)) (settings_rows nexus)
  ask_complete = elim (Option-cases (fetch_repository_settings nexus)) [
    | inl e ↦ rw e tt
    | inr (rows, e) ↦
        subst (λ o. All (IsSkippedOrKnown (ask lower host is_error nexus)) (list_rows o)) (sym e)
          (settings_complete rows e)
  ]
