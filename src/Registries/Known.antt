-- ===== src/Registries/Known.antt =====
-- What `discover` and `resolve` answer, in terms of what Nexus declares.
use rotsy.Base.{
  ℕ, ◌≡◌, refl, sym, subst, ◌∙◌, ◌⊎◌, inl, inr, Bool, Option, none, some, List, [], Text, text_key,
  if◌then◌else◌, All, Any, All-map, Bool-cases, Option-cases, arith,
}
use rotsy.Registries.{DockerRegistry, DiscoveryResult}
use rotsy.Registries.Discovery.{
  Row, Reply, failed, replied, Nexus, fetch_repository_settings, source_settings, source_api,
  add_rows, empty_result, registry_row_from_settings, from_repository_settings,
  resolve_repo_registry, of_listing, from_per_repo_api, list_rows, learned_nothing, ask,
}
use rotsy.Registries.Declared.{
  DeclaredIn, DeclaredBy, add_rows-Any, settings_row-DeclaredIn, api_row-DeclaredBy,
}

-- The rows of the settings, where they can be read.
abbrev pub settings_rows : Nexus → List Row
settings_rows nexus = list_rows (fetch_repository_settings nexus)

abbrev rows_in : (ℕ → Bool) → Reply (Option (List Row)) → List Row
rows_in is_error (failed why) = []
rows_in is_error (replied status none) = []
rows_in is_error (replied status (some rows)) = if is_error status then [] else list_rows rows

some_inj : {A : Type 0} {a b : A} → some a ≡ some b → a ≡ b
some_inj e = cc

module _ (lower : Text → Text) (host : Text) (is_error : ℕ → Bool) (nexus : Nexus) where
  -- A row of the settings declares the registry, or a row of the list of repositories does.
  abbrev pub IsDeclared : Text × DockerRegistry → Type 0
  IsDeclared e =
      Any (DeclaredIn lower host e) (settings_rows nexus)
      ⊎ Any (DeclaredBy lower host nexus e) (rows_in is_error nexus.repositories)

  -- The registries of a result are declared.
  abbrev AllDeclared : DiscoveryResult → Type 0
  AllDeclared result = All IsDeclared result.registries

  by_settings :
      (rows : List Row)
      → fetch_repository_settings nexus ≡ some rows
      → AllDeclared
          (add_rows (registry_row_from_settings lower host) rows (empty_result source_settings))
  by_settings rows e =
      let found =
        add_rows-Any (DeclaredIn lower host) (registry_row_from_settings lower host) rows
          source_settings (settings_row-DeclaredIn lower host) in
      let result =
        add_rows (registry_row_from_settings lower host) rows (empty_result source_settings) in
      let here : (x : Text × DockerRegistry) → Any (DeclaredIn lower host x) rows → IsDeclared x =
        λ x h. inl (subst (λ o. Any (DeclaredIn lower host x) (list_rows o)) (sym e) h) in
      All-map here result.registries found

  settings-AllDeclared :
      (result : DiscoveryResult)
      → from_repository_settings lower host nexus ≡ some result
      → AllDeclared result
  unfolding from_repository_settings
  settings-AllDeclared result e = elim (Option-cases (fetch_repository_settings nexus)) [
    | inl q ↦ ground (arith, q, e)
    | inr (rows, q) ↦
        let learned =
          add_rows (registry_row_from_settings lower host) rows (empty_result source_settings) in
        let v : from_repository_settings lower host nexus ≡ some learned =
          rw (q, from_repository_settings) refl in
        subst AllDeclared (some_inj (sym v ∙ e)) (by_settings rows q)
  ]

  -- The rows that the reply lists declare the registries.
  abbrev ByListing : Reply (Option (List Row)) → DiscoveryResult → Type 0
  ByListing reply result =
      All (λ x. Any (DeclaredBy lower host nexus x) (rows_in is_error reply)) result.registries

  listing-ByListing :
      (reply : Reply (Option (List Row)))
      → ByListing reply (of_listing lower host is_error nexus reply)
  unfolding of_listing
  listing-ByListing (failed why) = tt
  listing-ByListing (replied status none) = tt
  listing-ByListing (replied status (some rows)) = elim (Bool-cases (is_error status)) [
    | inl e ↦ rw (e, of_listing) tt
    | inr e ↦
        rw (e, of_listing)
          (add_rows-Any (DeclaredBy lower host nexus) (resolve_repo_registry lower host nexus)
            (list_rows rows) source_api (api_row-DeclaredBy lower host nexus))
  ]

  api-AllDeclared : AllDeclared (from_per_repo_api lower host is_error nexus)
  unfolding from_per_repo_api
  api-AllDeclared =
      let result = of_listing lower host is_error nexus nexus.repositories in
      let there : (x : Text × DockerRegistry)
          → Any (DeclaredBy lower host nexus x) (rows_in is_error nexus.repositories)
          → IsDeclared x =
        λ x h. inr h in
      All-map there result.registries (listing-ByListing nexus.repositories)

  -- Every registry that a discovery learns from Nexus is declared by it: under the name of a Docker
  -- repository that it lists, on the host of Nexus, at the HTTPS port of its connector with the
  -- scheme `https`, or at its HTTP port with `http` where it has no HTTPS port.
  pub ask-IsDeclared : All IsDeclared (ask lower host is_error nexus).registries
  unfolding ask
  ask-IsDeclared = elim (Bool-cases (learned_nothing (from_repository_settings lower host nexus))) [
    | inl e ↦ rw (e, ask) api-AllDeclared
    | inr e ↦ elim (Option-cases (from_repository_settings lower host nexus)) [
      | inl q ↦ ground (arith, q, e)
      | inr (result, q) ↦
          let v : ask lower host is_error nexus ≡ result = rw (e, q, ask) refl in
          subst AllDeclared (sym v) (settings-AllDeclared result q)
    ]
  ]
