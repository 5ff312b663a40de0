-- ===== src/Registries/Discovery/Rows.antt =====
-- What Nexus answers, and the registries that its rows give: the two steps of a discovery.
use rotsy.Base.{
  ℕ, Bool, Option, none, some, List, [], ◌∷◌, ◌++◌, Text, text, text_eq, has_text, insert, text_key,
  or_blank, if◌then◌else◌, ◌==◌, decimal,
}
use rotsy.Registries.{DockerRegistry, DiscoveryResult}

pub record DockerBlock : Type 0 where
  pub https_port : Option ℕ
  pub http_port : Option ℕ

pub record Row : Type 0 where
  pub name : Option Text
  pub format : Option Text
  pub kind : Option Text
  pub docker : Option DockerBlock

-- A request that raises, or a reply with its status and its body, where it can be read.
pub data Reply (A : Type 0) : Type 0 where
  failed : Text → Reply A
  replied : ℕ → Option A → Reply A

-- What Nexus answers: the two lists, `none` for a body that is no list, and the configuration of a
-- repository by its type and name.
pub record Nexus : Type 0 where
  pub repository_settings : Reply (Option (List Row))
  pub repositories : Reply (Option (List Row))
  pub repository : Text → Text → Reply (Option DockerBlock)

-- A registry, or the reason why there is none.
pub data Built : Type 0 where
  registry : DockerRegistry → Built
  reason : Text → Built

abbrev pub is_port : Option ℕ → Option ℕ
is_port none = none
is_port (some port) = if port == 0 then none else some port

abbrev pub no_port : Text
no_port =
    text "no Docker connector port configured on this repository — set an HTTP or "
    ++ text "HTTPS connector port in Nexus (Repository → Configuration → HTTP/HTTPS)"

abbrev pub no_block : DockerBlock
no_block = record { https_port = none; http_port = none }

abbrev pub or_no_block : Option DockerBlock → DockerBlock
or_no_block none = no_block
or_no_block (some block) = block

abbrev pub endpoint : Text → Text → Text → Text → ℕ → Text → DockerRegistry
endpoint repo repo_type host source port scheme = record {
  repo = repo;
  repo_type = repo_type;
  host = host;
  port = port;
  scheme = scheme;
  source = source;
}

unfoldable pub registry_from_docker_block : Text → Text → DockerBlock → Text → Text → Built
registry_from_docker_block repo repo_type docker host source = elim (is_port docker.https_port) [
  | some port ↦ registry (endpoint repo repo_type host source port (text "https"))
  | none ↦ elim (is_port docker.http_port) [
    | some port ↦ registry (endpoint repo repo_type host source port (text "http"))
    | none ↦ reason no_port
  ]
]

-- A reply of status 200 with a body that is a list.
unfoldable pub fetch_repository_settings : Nexus → Option (List Row)
fetch_repository_settings nexus = elim nexus.repository_settings [
  | failed why ↦ none
  | replied status body ↦
      if status == 200 then elim body [ none ↦ none | some rows ↦ rows ] else none
]

-- A name that is neither missing nor empty.
abbrev pub named : Option Text → Option Text
named none = none
named (some []) = none
named (some (c ∷ s)) = some (c ∷ s)

abbrev pub refused_status : ℕ → Text
refused_status status =
    text "Nexus returned HTTP "
    ++ (decimal status
        ++ (text " for the repository configuration — the service account needs "
            ++ text "repository-admin read privileges to discover connector ports"))

abbrev pub malformed_response : Text
malformed_response = text "malformed repository configuration response"

abbrev pub source_settings : Text
source_settings = text "repositorySettings"

abbrev pub source_api : Text
source_api = text "repository-api"

abbrev pub source_unavailable : Text
source_unavailable = text "unavailable"

abbrev pub is_docker_type : Text → Bool
is_docker_type kind = has_text kind (text "hosted" ∷ text "proxy" ∷ text "group" ∷ [])

-- `registries[name] = registry` or `unresolved[name] = reason`
abbrev pub add_built : Option (Text × Built) → DiscoveryResult → DiscoveryResult
add_built none result = result
add_built (some (name, registry r)) result = record result {
  registries = insert name r result.registries;
}
add_built (some (name, reason why)) result = record result {
  unresolved = insert name why result.unresolved;
}

-- The loop over the rows.
unfoldable pub add_rows :
    (Row → Option (Text × Built)) → List Row → DiscoveryResult → DiscoveryResult
add_rows resolve_row [] result = result
add_rows resolve_row (row ∷ rows) result =
    add_rows resolve_row rows (add_built (resolve_row row) result)

abbrev pub empty_result : Text → DiscoveryResult
empty_result source = record { registries = []; unresolved = []; source = source }

abbrev pub list_rows : Option (List Row) → List Row
list_rows none = []
list_rows (some rows) = rows

-- `(row.get("format") or "").lower() == "docker"`
abbrev pub is_docker : (Text → Text) → Row → Bool
is_docker lower row = text_eq (lower (or_blank row.format)) (text "docker")

module _ (lower : Text → Text) (host : Text) where
  unfoldable pub registry_row_from_settings : Row → Option (Text × Built)
  registry_row_from_settings row =
      if is_docker lower row
      then elim (named row.name) [
        | none ↦ none
        | some name ↦ some (
          name,
          registry_from_docker_block name (lower (or_blank row.kind)) (or_no_block row.docker) host
              source_settings,
        )
      ]
      else none

  unfoldable pub from_repository_settings : Nexus → Option DiscoveryResult
  from_repository_settings nexus = elim (fetch_repository_settings nexus) [
    | none ↦ none
    | some rows ↦ some (add_rows registry_row_from_settings rows (empty_result source_settings))
  ]

  -- The configuration of one repository as a registry or the reason why it gives none.
  unfoldable pub built_of_reply : Text → Text → Reply (Option DockerBlock) → Built
  built_of_reply name repo_type (failed why) =
      reason (text "could not read repository configuration: " ++ why)
  built_of_reply name repo_type (replied status body) =
      if status == 200
      then elim body [
        | none ↦ reason malformed_response
        | some block ↦ registry_from_docker_block name repo_type (or_no_block block) host source_api
      ]
      else reason (refused_status status)

  unfoldable pub resolve_repo_registry : Nexus → Row → Option (Text × Built)
  resolve_repo_registry nexus row =
      if is_docker lower row
      then elim (named row.name) [
        | none ↦ none
        | some name ↦
            let repo_type = lower (or_blank row.kind) in
            if is_docker_type repo_type
            then some (name, built_of_reply name repo_type (nexus.repository repo_type name))
            else none
      ]
      else none

  -- A reply that is an error, or whose body cannot be read, is no discovery.
  unfoldable pub of_listing : (ℕ → Bool) → Nexus → Reply (Option (List Row)) → DiscoveryResult
  of_listing is_error nexus (failed why) = empty_result source_unavailable
  of_listing is_error nexus (replied status none) = empty_result source_unavailable
  of_listing is_error nexus (replied status (some rows)) =
      if is_error status
      then empty_result source_unavailable
      else add_rows (resolve_repo_registry nexus) (list_rows rows) (empty_result source_api)

  unfoldable pub from_per_repo_api : (ℕ → Bool) → Nexus → DiscoveryResult
  unfolding of_listing
  from_per_repo_api is_error nexus = of_listing is_error nexus nexus.repositories
