-- ===== src/Registries/Resolving.antt =====
-- The cache of discoveries, and what `resolve` answers from it.
use rotsy.Base.{
  ℕ, ◌≡◌, refl, sym, subst, ap, ◌∙◌, ◌⊎◌, inl, inr, Bool, false, Option, none, some, List, [], ◌∷◌,
  Text, Dict, text_eq, text_eq_sound, text_key, Bool-cases, Option-cases, arith,
}
use rotsy.Registries.{
  DockerRegistry, DiscoveryResult, fields_of, objects_of, registry_of, registries_of, to_json,
  from_json, or_cache,
}
use rotsy.Registries.Discovery.{
  Row, Reply, failed, replied, Nexus, Built, registry, reason, source_settings, source_api,
  source_unavailable, add_built, add_rows, empty_result, registry_row_from_settings,
  from_repository_settings, fetch_repository_settings, resolve_repo_registry, of_listing,
  from_per_repo_api, list_rows, learned_nothing, ask, rediscover, discover, Cache, Cached, Resolved,
  resolve,
}

add_built-source :
    (o : Option (Text × Built)) (result : DiscoveryResult)
    → (add_built o result).source ≡ result.source
add_built-source none result = refl
add_built-source (some (name, registry r)) result = refl
add_built-source (some (name, reason why)) result = refl

add_rows-source :
    (f : Row → Option (Text × Built)) (rows : List Row) (result : DiscoveryResult)
    → (add_rows f rows result).source ≡ result.source
unfolding add_rows
add_rows-source f [] result = refl
add_rows-source f (row ∷ rows) result =
    add_rows-source f rows (add_built (f row) result) ∙ add_built-source (f row) result

-- One of the three sources of a discovery.
abbrev IsSource : Text → Type 0
IsSource s = (s ≡ source_settings) ⊎ ((s ≡ source_api) ⊎ (s ≡ source_unavailable))

or_cache-IsSource : (s : Text) → IsSource s → or_cache (some s) ≡ s
or_cache-IsSource s (inl e) = subst (λ t. or_cache (some t) ≡ t) (sym e) refl
or_cache-IsSource s (inr (inl e)) = subst (λ t. or_cache (some t) ≡ t) (sym e) refl
or_cache-IsSource s (inr (inr e)) = subst (λ t. or_cache (some t) ≡ t) (sym e) refl

registry_of-fields_of : (r : DockerRegistry) → registry_of (fields_of r) ≡ some r
unfolding registry_of fields_of
registry_of-fields_of r = refl

registries_of-objects_of :
    (registries : Dict Text DockerRegistry)
    → registries_of (objects_of registries) ≡ some registries
registries_of-objects_of [] = refl
registries_of-objects_of ((repo, r) ∷ registries) =
    rw (registry_of-fields_of r, registries_of-objects_of registries) refl

from_json-to_json :
    (result : DiscoveryResult)
    → or_cache (some result.source) ≡ result.source
    → from_json (to_json result) ≡ some result
unfolding from_json to_json
from_json-to_json result e =
    rw (registries_of-objects_of result.registries, from_json)
      (ap (λ s. some (record result { source = s })) e)

module _ (lower : Text → Text) (host : Text) (is_error : ℕ → Bool) where
  listing-IsSource :
      (nexus : Nexus) (reply : Reply (Option (List Row)))
      → IsSource (of_listing lower host is_error nexus reply).source
  unfolding of_listing
  listing-IsSource nexus (failed why) = inr (inr refl)
  listing-IsSource nexus (replied status none) = inr (inr refl)
  listing-IsSource nexus (replied status (some rows)) = elim (Bool-cases (is_error status)) [
    | inl e ↦ rw (e, of_listing) (inr (inr refl))
    | inr e ↦
        rw (e, of_listing)
          (inr (
            inl (
              add_rows-source (resolve_repo_registry lower host nexus) (list_rows rows)
                (empty_result source_api))))
  ]

  settings-source :
      (nexus : Nexus) (result : DiscoveryResult)
      → from_repository_settings lower host nexus ≡ some result
      → result.source ≡ source_settings
  unfolding from_repository_settings
  settings-source nexus result e = elim (Option-cases (fetch_repository_settings nexus)) [
    | inl q ↦ ground (arith, q, e)
    | inr (rows, q) ↦ ground (
      arith,
      q,
      e,
      add_rows-source (registry_row_from_settings lower host) rows (empty_result source_settings),
    )
  ]

  module _ (nexus : Nexus) where
    ask-IsSource : IsSource (ask lower host is_error nexus).source
    unfolding ask from_per_repo_api
    ask-IsSource = elim (Bool-cases (learned_nothing (from_repository_settings lower host nexus))) [
      | inl e ↦ rw (e, ask) (listing-IsSource nexus nexus.repositories)
      | inr e ↦ elim (Option-cases (from_repository_settings lower host nexus)) [
        | inl q ↦ ground (arith, q, e)
        | inr (result, q) ↦
            let v : ask lower host is_error nexus ≡ result = rw (e, q, ask) refl in
            subst (λ r. IsSource r.source) (sym v) (inl (settings-source nexus result q))
      ]
    ]

    -- The three sources are not empty, so that what is cached is read as it was written.
    read_back :
        from_json (to_json (ask lower host is_error nexus)) ≡ some (ask lower host is_error nexus)
    read_back =
        from_json-to_json (ask lower host is_error nexus)
          (or_cache-IsSource (ask lower host is_error nexus).source ask-IsSource)

    -- With a connected cache whose write succeeds, a discovery that asks Nexus is answered again from
    -- the object that it has written, whatever Nexus says by then, as long as the entry is neither
    -- expired (120 s) nor lost; only one that could not list the repositories writes nothing.
    pub discover_again :
        (later : Nexus) (held : Option Cached)
        → let (result, cache) = rediscover lower host is_error nexus (some held) in
          ((discover lower host is_error false later cache).0 ≡ result)
          ⊎ ((result.source ≡ source_unavailable) × (cache ≡ some held))
    unfolding rediscover discover
    discover_again later held =
        let result = ask lower host is_error nexus in
        elim (Bool-cases (text_eq result.source source_unavailable)) [
          | inl e ↦ rw e (inr (text_eq_sound result.source source_unavailable e, refl))
          | inr e ↦ rw (e, discover) (inl (rw read_back refl))
        ]

  module _ (nexus later : Nexus) (repo : Text) (cache : Cache) (r : DockerRegistry) where
    abbrev known : DiscoveryResult
    known = (discover lower host is_error false nexus cache).0

    abbrev fresh : DiscoveryResult
    fresh = ask lower host is_error later

    abbrev resolved : Resolved
    resolved = (resolve lower host is_error nexus later repo cache).0

    abbrev cached : Cache
    cached = (discover lower host is_error false nexus cache).1
