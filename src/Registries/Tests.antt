-- ===== src/Registries/Tests.antt =====
-- A Nexus with two repositories, and the theorems at concrete discoveries.
use rotsy.Base.{
  ℕ, ◌≡◌, refl, ◌⊎◌, Bool, true, false, Option, none, some, List, [], ◌∷◌, Text, text, All,
}
use rotsy.Registries.{DockerRegistry, authority, base_url, get_registry}
use rotsy.Registries.Discovery.{
  DockerBlock, Row, Reply, failed, replied, Nexus, registry_from_docker_block,
  fetch_repository_settings, registry_row_from_settings, add_rows, from_repository_settings,
  source_unavailable, ask, rediscover, discover, found, resolve, probe, of_listing,
  from_per_repo_api, resolve_repo_registry, built_of_reply,
}
use rotsy.Registries.Known.{IsDeclared, ask-IsDeclared, settings_rows}
use rotsy.Registries.Complete.{IsSkippedOrKnown, ask_complete}
use rotsy.Registries.Resolving.{discover_again}

abbrev same : Text → Text
same t = t

abbrev ok : ℕ → Bool
ok status = false

abbrev host : Text
host = text "nexus"

abbrev row : Text → Option ℕ → Option ℕ → Row
row name https http = record {
  name = some name;
  format = some (text "docker");
  kind = some (text "hosted");
  docker = some (record { https_port = https; http_port = http });
}

abbrev two_rows : List Row
two_rows = row (text "a") none (some 5000) ∷ row (text "b") none none ∷ []

abbrev refused : Text → Text → Reply (Option DockerBlock)
refused kind name = replied 403 none

abbrev nexus : Nexus
nexus = record {
  repository_settings = replied 200 (some (some two_rows));
  repositories = failed (text "timeout");
  repository = refused;
}

-- The repository `a` with TLS, as its own configuration gives it.
abbrev secured : Text → Text → Reply (Option DockerBlock)
secured kind name =
    replied 200 (some (some (record { https_port = some 5443; http_port = some 5000 })))

abbrev by_api : Nexus
by_api = record {
  repository_settings = replied 403 none;
  repositories = replied 200 (some (some two_rows));
  repository = secured;
}

abbrev endpoint_a : DockerRegistry
endpoint_a = record {
  repo = text "a";
  repo_type = text "hosted";
  host = host;
  port = 5000;
  scheme = text "http";
  source = text "repositorySettings";
}

first_is_found : (resolve same host ok nexus nexus (text "a") none).0 ≡ found endpoint_a
unfolding resolve discover rediscover ask from_repository_settings fetch_repository_settings
    add_rows registry_row_from_settings registry_from_docker_block get_registry
first_is_found = refl

tls_is_preferred :
    get_registry (text "a") (ask same host ok by_api)
    ≡ some
        (record endpoint_a { port = 5443; scheme = text "https"; source = text "repository-api" })
unfolding ask from_repository_settings fetch_repository_settings from_per_repo_api of_listing
    add_rows resolve_repo_registry built_of_reply registry_from_docker_block get_registry
tls_is_preferred = refl

-- A repository without a port in the settings is not asked for on its own.
unresolved_is_kept :
    get_registry
      (text "b")
      (ask same host ok (record nexus { repositories = by_api.repositories; repository = secured }))
    ≡ none
unfolding ask from_repository_settings fetch_repository_settings add_rows registry_row_from_settings
    registry_from_docker_block get_registry
unresolved_is_kept = refl

ask-IsDeclared_example : All (IsDeclared same host ok by_api) (ask same host ok by_api).registries
ask-IsDeclared_example = ask-IsDeclared same host ok by_api

ask_complete_example :
    All (IsSkippedOrKnown same host ok nexus (ask same host ok nexus)) (settings_rows nexus)
ask_complete_example = ask_complete same host ok nexus

discover_again_example :
    ((discover same host ok false by_api (rediscover same host ok nexus (some none)).1).0
      ≡ (rediscover same host ok nexus (some none)).0)
    ⊎ (((rediscover same host ok nexus (some none)).0.source ≡ source_unavailable)
        × ((rediscover same host ok nexus (some none)).1 ≡ some none))
discover_again_example = discover_again same host ok nexus by_api none

abbrev answers_401 : Text → Reply (Unit {0})
answers_401 url = replied 401 none

unauthorized_is_reachable : (probe answers_401 endpoint_a).reachable ≡ true
unfolding probe base_url authority
unauthorized_is_reachable = refl
