-- ===== src/Scans/Webhook.antt =====
-- What arrives from Nexus: `_digest_of`, `list_repo_images`, `parse_webhook_payload` and
-- `verify_webhook_signature` of backend/app/modules/nexus/events.py. The JSON objects are records
-- of the keys that are read. `lower` and `upper` are the `str` methods, whose Unicode tables are not
-- restated; `hmac_sha1` and `hmac_sha256` are the hexadecimal digests of the `hmac` module.
pub mod Listing
use rotsy.Base.{
  or_blank, contains, starts_with, ℕ, Bool, true, false, not, ◌&&◌, ◌||◌, Option, none, some, List,
  [], ◌∷◌, ◌++◌, Text, text, text_eq, if◌then◌else◌, has_text, non_empty, strip, ◌==◌,
}
use rotsy.Scans.Ledger.{ImageRef}
use rotsy.Scans.Trigger.{is_given, ◌>>=◌}

pub record Asset : Type 0 where
  pub path : Option Text
  -- `(asset.get("checksum") or {}).get("sha256")`
  pub sha256 : Option Text

pub record Component : Type 0 where
  pub format : Option Text
  pub name : Option Text
  pub version : Option Text
  pub assets : List Asset

pub record Payload : Type 0 where
  pub action : Option Text
  pub repository_name : Option Text
  -- `none` for a missing or empty object
  pub component : Option Component

abbrev is_manifest : Asset → Bool
is_manifest asset = contains (text "/manifests/") (or_blank asset.path)

unfoldable pub digest_of : List Asset → Text
unfolding contains
digest_of [] = []
digest_of (asset ∷ assets) =
    let rest = digest_of assets in
    if is_manifest asset
    then (elim (non_empty asset.sha256) [
      | some checksum ↦ text "sha256:" ++ checksum
      | none ↦ rest
    ])
    else rest

module _ (lower upper : Text → Text) where
  abbrev pub is_docker : Option Text → Bool
  is_docker format = text_eq (lower (or_blank format)) (text "docker")

  -- The reference of a component worth listing: `name:tag`.
  unfoldable pub image_of : Component → Option Text
  image_of component =
      if is_docker component.format
      then (do
        name ← non_empty component.name
        tag ← non_empty component.version
        some (name ++ (text ":" ++ tag)))
      else none

  -- The loop of `list_repo_images`, over the components of all pages.
  unfoldable pub list_from : List Text → List Component → List ImageRef
  unfolding image_of digest_of
  list_from seen [] = []
  list_from seen (component ∷ components) = elim (image_of component) [
    | none ↦ list_from seen components
    | some ref ↦ elim (has_text ref seen) [
      | true ↦ list_from seen components
      | false ↦
          record { image = ref; digest = digest_of component.assets }
          ∷ list_from (ref ∷ seen) components
    ]
  ]

  unfoldable pub list_repo_images : List Component → List ImageRef
  unfolding list_from
  list_repo_images components = list_from [] components

  unfoldable pub parse_webhook_payload : Payload → Option (Text × ImageRef)
  unfolding image_of
  parse_webhook_payload payload =
      let scannable =
        has_text (upper (or_blank payload.action)) (text "CREATED" ∷ text "UPDATED" ∷ []) in
      if scannable
      then (do
        component ← payload.component
        ref ← image_of component
        repo ← non_empty payload.repository_name
        some (repo, record { image = ref; digest = [] }))
      else none

  module _ (hmac_sha1 hmac_sha256 : Text → List ℕ → Text) where
    -- `hmac.compare_digest` is equality, in time that does not depend on the texts.
    unfoldable pub verify_webhook_signature : Text → List ℕ → Text → Bool
    unfolding strip
    verify_webhook_signature secret body signature =
        let candidate = lower (strip signature) in
        if not (is_given secret) || not (is_given signature)
        then false
        else text_eq (hmac_sha1 secret body) candidate
          || text_eq (hmac_sha256 secret body) candidate
