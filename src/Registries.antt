-- ===== src/Registries.antt =====
-- The discovery of Docker registries: backend/app/modules/nexus/registry.py. `DockerRegistry` and
-- `DiscoveryResult` with their methods; Registries/Discovery asks a Nexus, whose answers are values.
pub mod Discovery
pub mod Declared
pub mod Known
pub mod Resolving
pub mod Complete
mod Tests
use rotsy.Base.{
  ℕ, Bool, true, false, Option, none, some, List, [], ◌∷◌, ◌++◌, Text, text, text_eq, decimal, Dict,
  lookup, text_key, has_text, all, if◌then◌else◌, ◌==◌,
}

pub record DockerRegistry : Type 0 where
  pub repo : Text
  pub repo_type : Text
  pub host : Text
  pub port : ℕ
  pub scheme : Text
  pub source : Text

unfoldable pub authority : DockerRegistry → Text
authority registry = registry.host ++ (text ":" ++ decimal registry.port)

unfoldable pub base_url : DockerRegistry → Text
unfolding authority
base_url registry = registry.scheme ++ (text "://" ++ authority registry)

unfoldable pub is_plaintext : DockerRegistry → Bool
is_plaintext registry = text_eq registry.scheme (text "http")

-- `s.lstrip('/')`
unfoldable pub lstrip_slash : Text → Text
lstrip_slash [] = []
lstrip_slash (c ∷ s) = if c == 47 then lstrip_slash s else c ∷ s

unfoldable pub image_ref : DockerRegistry → Text → Text
unfolding authority lstrip_slash
image_ref registry image = authority registry ++ (text "/" ++ lstrip_slash image)

pub record DiscoveryResult : Type 0 where
  pub registries : Dict Text DockerRegistry
  pub unresolved : Dict Text Text
  pub source : Text

-- A value of an object of JSON that stands for one registry.
pub data Scalar : Type 0 where
  string : Text → Scalar
  number : ℕ → Scalar

-- The object that is cached as JSON; a key of it may be missing or null.
pub record ResultJson : Type 0 where
  pub registries : Option (Dict Text (Dict Text Scalar))
  pub unresolved : Option (Dict Text Text)
  pub source : Option Text

unfoldable pub get_registry : Text → DiscoveryResult → Option DockerRegistry
get_registry repo result = lookup repo result.registries

-- `asdict` of a `DockerRegistry`
unfoldable pub fields_of : DockerRegistry → Dict Text Scalar
fields_of r =
    (text "repo", string r.repo)
    ∷ (text "repo_type", string r.repo_type)
    ∷ (text "host", string r.host)
    ∷ (text "port", number r.port)
    ∷ (text "scheme", string r.scheme)
    ∷ (text "source", string r.source)
    ∷ []

abbrev pub objects_of : Dict Text DockerRegistry → Dict Text (Dict Text Scalar)
objects_of [] = []
objects_of ((repo, r) ∷ registries) = (repo, fields_of r) ∷ objects_of registries

unfoldable pub to_json : DiscoveryResult → ResultJson
to_json result = record {
  registries = some (objects_of result.registries);
  unresolved = some result.unresolved;
  source = some result.source;
}

abbrev pub string_at : Text → Dict Text Scalar → Option Text
string_at key fields = elim (lookup key fields) [
  | none ↦ none
  | some (string t) ↦ some t
  | some (number n) ↦ none
]

abbrev pub number_at : Text → Dict Text Scalar → Option ℕ
number_at key fields = elim (lookup key fields) [
  | none ↦ none
  | some (string t) ↦ none
  | some (number n) ↦ some n
]

abbrev pub of_fields :
    Option Text
    → Option Text
    → Option Text
    → Option ℕ
    → Option Text
    → Option Text
    → Option DockerRegistry
of_fields (some repo) (some repo_type) (some host) (some port) (some scheme) (some source) =
    some (record {
      repo = repo;
      repo_type = repo_type;
      host = host;
      port = port;
      scheme = scheme;
      source = source;
    })
of_fields _ _ _ _ _ _ = none

abbrev pub field_names : List Text
field_names =
    text "repo" ∷ text "repo_type" ∷ text "host" ∷ text "port" ∷ text "scheme" ∷ text "source" ∷ []

-- `DockerRegistry(**v)`: `none` where a field is missing or a key is no field, which raises `TypeError`.
-- A value of another type than its field's, which Python takes, is refused too.
unfoldable pub registry_of : Dict Text Scalar → Option DockerRegistry
registry_of fields =
    if all (λ entry. has_text entry.0 field_names) fields
    then of_fields (string_at (text "repo") fields) (string_at (text "repo_type") fields)
        (string_at (text "host") fields) (number_at (text "port") fields)
        (string_at (text "scheme") fields) (string_at (text "source") fields)
    else none

abbrev pub add_registry :
    Text
    → Option DockerRegistry
    → Option (Dict Text DockerRegistry)
    → Option (Dict Text DockerRegistry)
add_registry repo (some r) (some registries) = some ((repo, r) ∷ registries)
add_registry repo (some r) none = none
add_registry repo none registries = none

abbrev pub registries_of : Dict Text (Dict Text Scalar) → Option (Dict Text DockerRegistry)
registries_of [] = some []
registries_of ((repo, fields) ∷ objects) =
    add_registry repo (registry_of fields) (registries_of objects)

-- `x or {}`
abbrev pub or_no_entries : {A : Type 0} → Option (Dict Text A) → Dict Text A
or_no_entries none = []
or_no_entries (some d) = d

-- `x or "cache"`
abbrev pub or_cache : Option Text → Text
or_cache none = text "cache"
or_cache (some []) = text "cache"
or_cache (some (c ∷ s)) = c ∷ s

-- `from_json`: `none` where an object is no registry.
unfoldable pub from_json : ResultJson → Option DiscoveryResult
from_json json = elim (registries_of (or_no_entries json.registries)) [
  | none ↦ none
  | some registries ↦ some (record {
    registries = registries;
    unresolved = or_no_entries json.unresolved;
    source = or_cache json.source;
  })
]
