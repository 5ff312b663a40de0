-- ===== src/Registries/Discovery.antt =====
-- `discover`, `resolve`, `invalidate` and `probe` with what they call. What Nexus answers to a request
-- is a value of `Nexus`; the rows of an answer are objects, and ports are numbers. `str.lower` and the
-- host of the Nexus URL are parameters. The cache is what it holds under its key, if one is
-- connected; an entry that expires after its 120 s, or is lost, is gone from it, and the write of an
-- entry succeeds. Which statuses `raise_for_status` refuses
-- is a parameter too, as httpx decides it.
mod Rows
unfoldable pub use Rows.*
use rotsy.Base.{
  ℕ, Bool, true, false, ◌&&◌, ◌||◌, Option, none, some, List, [], ◌∷◌, ◌++◌, Text, text, text_eq,
  has_text, lookup, insert, text_key, or_blank, if◌then◌else◌, ◌==◌, decimal,
}
use rotsy.Registries.{
  DockerRegistry, DiscoveryResult, ResultJson, to_json, from_json, get_registry, base_url,
}

-- The value under the key of the cache; one that is empty, or none of these objects, is malformed.
pub data Cached : Type 0 where
  malformed : Cached
  json : ResultJson → Cached

-- The cache, if one is connected, and what it holds under the key.
abbrev pub Cache : Type 0
Cache = Option (Option Cached)

-- `cache.get_json`, read by `from_json`, where the value is there and can be read.
abbrev pub cached_result : Cache → Option DiscoveryResult
cached_result none = none
cached_result (some none) = none
cached_result (some (some malformed)) = none
cached_result (some (some (json value))) = from_json value

-- `cache.set_json`
abbrev pub store : DiscoveryResult → Cache → Cache
store result none = none
store result (some held) = some (some (json (to_json result)))

unfoldable pub invalidate : Cache → Cache
invalidate none = none
invalidate (some held) = some none

abbrev pub is_empty : {A : Type 0} → List A → Bool
is_empty [] = true
is_empty (x ∷ xs) = false

-- `result is None or (not result.registries and not result.unresolved)`
abbrev pub learned_nothing : Option DiscoveryResult → Bool
learned_nothing none = true
learned_nothing (some result) = is_empty result.registries && is_empty result.unresolved

abbrev pub or_result : DiscoveryResult → Option DiscoveryResult → DiscoveryResult
or_result other none = other
or_result other (some result) = result

pub data Resolved : Type 0 where
  found : DockerRegistry → Resolved
  unavailable : Text → Resolved

-- `if reason: raise ...`, else the error for a repository that Nexus does not know.
abbrev pub unresolved_error : Text → Option Text → Resolved
unresolved_error repo none = unavailable (
    text "repository '"
    ++ (repo
        ++ text
            "' is not a Docker repository known to Nexus, or its configuration could not be read"))
unresolved_error repo (some []) = unavailable (
    text "repository '"
    ++ (repo
        ++ text
            "' is not a Docker repository known to Nexus, or its configuration could not be read"))
unresolved_error repo (some (c ∷ s)) =
    unavailable (text "repository '" ++ (repo ++ (text "': " ++ (c ∷ s))))

abbrev pub is_listed : Text → DiscoveryResult → Bool
is_listed repo result = elim (lookup repo result.unresolved) [ none ↦ false | some why ↦ true ]

abbrev pub answer : Text → DiscoveryResult → Resolved
answer repo result = elim (get_registry repo result) [
  | some r ↦ found r
  | none ↦ unresolved_error repo (lookup repo result.unresolved)
]

module _ (lower : Text → Text) (host : Text) (is_error : ℕ → Bool) where
  -- Both steps of a discovery.
  unfoldable pub ask : Nexus → DiscoveryResult
  ask nexus =
      let first = from_repository_settings lower host nexus in
      if learned_nothing first
      then from_per_repo_api lower host is_error nexus
      else or_result (empty_result source_unavailable) first

  -- A discovery that asks Nexus, and the cache that it leaves.
  unfoldable pub rediscover : Nexus → Cache → DiscoveryResult × Cache
  rediscover nexus cache =
      let result = ask nexus in
      (result, if text_eq result.source source_unavailable then cache else store result cache)

  unfoldable pub discover : Bool → Nexus → Cache → DiscoveryResult × Cache
  discover true nexus cache = rediscover nexus cache
  discover false nexus cache = elim (cached_result cache) [
    | some result ↦ (result, cache)
    | none ↦ rediscover nexus cache
  ]

  -- `resolve`, with what Nexus answers to its first and to its second discovery.
  unfoldable pub resolve : Nexus → Nexus → Text → Cache → Resolved × Cache
  resolve nexus later repo cache =
      let (result, cached) = discover false nexus cache in
      elim (get_registry repo result) [
        | some r ↦ (found r, cached)
        | none ↦
            if is_listed repo result
            then (answer repo result, cached)
            else let (fresh, kept) = discover true later cached in (answer repo fresh, kept)
      ]

-- What `probe` reports: whether the endpoint is a registry, its URL, its status and an error.
pub record Probe : Type 0 where
  pub reachable : Bool
  pub url : Text
  pub status_code : Option ℕ
  pub error : Option Text

abbrev pub answers_v2 : ℕ → Bool
answers_v2 status = status == 200 || (status == 401 || status == 403)

unfoldable pub probe : (Text → Reply (Unit {0})) → DockerRegistry → Probe
probe get r =
    let url = base_url r ++ text "/v2/" in
    elim (get url) [
      | failed why ↦ record { reachable = false; url = url; status_code = none; error = some why }
      | replied status body ↦ record {
        reachable = answers_v2 status;
        url = url;
        status_code = some status;
        error =
            if answers_v2 status
            then none
            else some (text "unexpected HTTP " ++ (decimal status ++ (text " from " ++ url)));
      }
    ]
