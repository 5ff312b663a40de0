-- ===== src/Registries/Declared.antt =====
-- What a discovery learns is what Nexus declares, and nothing that Nexus declares is dropped.
mod Endpoints
pub use Endpoints.*
use rotsy.Base.{
  ℕ, ◌≡◌, refl, sym, ap, ◌∙◌, subst, ◌⊎◌, inl, inr, true, Option, none, some, List, [], ◌∷◌, Text,
  text, text_eq, text_eq_sound, Dict, insert, text_key, ◌==◌, ==_iff, All, Any, All-map, or_blank,
  Bool-cases, Option-cases,
}
use rotsy.Registries.{DockerRegistry, DiscoveryResult}
use rotsy.Registries.Discovery.{
  DockerBlock, Row, Reply, failed, replied, Nexus, Built, registry, reason, is_port, or_no_block,
  endpoint, registry_from_docker_block, named, source_settings, source_api, no_port, refused_status,
  malformed_response, is_docker, is_docker_type, add_built, add_rows, empty_result,
  registry_row_from_settings, built_of_reply, resolve_repo_registry,
}

module _ (lower : Text → Text) (host : Text) where
  -- The row declares the registry under the name.
  abbrev pub DeclaredIn : Text × DockerRegistry → Row → Type 0
  DeclaredIn e row =
      (is_docker lower row ≡ true)
      × (named row.name ≡ some e.0)
      × IsEndpoint host source_settings (or_no_block row.docker) e

  pub settings_row-DeclaredIn :
      (row : Row) → IfBuilt (λ e. DeclaredIn e row) (registry_row_from_settings lower host row)
  unfolding registry_row_from_settings
  settings_row-DeclaredIn row = elim (Bool-cases (is_docker lower row)) [
    | inr e ↦ at none (rw (e, registry_row_from_settings) refl) tt
    | inl e ↦ elim (Option-cases (named row.name)) [
      | inl q ↦ at none (rw (e, q, registry_row_from_settings) refl) tt
      | inr (name, q) ↦
          let kind = lower (or_blank row.kind) in
          let block = or_no_block row.docker in
          at (block_row name kind host source_settings block)
            (rw (e, q, registry_row_from_settings) refl)
            (IfBuilt-map (IsOfBlock name kind host source_settings block) (λ x. DeclaredIn x row)
              (block_row name kind host source_settings block) (λ x k. (e, q ∙ ap some k.0, k.1))
              (block_row-IsOfBlock name kind host source_settings block))
    ]
  ]
    where
      at :
          (u : Option (Text × Built))
          → registry_row_from_settings lower host row ≡ u
          → IfBuilt (λ e. DeclaredIn e row) u
          → IfBuilt (λ e. DeclaredIn e row) (registry_row_from_settings lower host row)
      at u = IfBuilt-at (λ e. DeclaredIn e row) (registry_row_from_settings lower host row) u

  -- The configuration that Nexus gives of the repository declares the registry.
  abbrev pub RepliedWith : Reply (Option DockerBlock) → Text × DockerRegistry → Type 0
  RepliedWith reply e =
      (block : Option DockerBlock) × (reply ≡ replied 200 (some block))
      × IsEndpoint host source_api (or_no_block block) e

  module _ (name kind : Text) where
    abbrev reply_row : Reply (Option DockerBlock) → Option (Text × Built)
    reply_row reply = some (name, built_of_reply lower host name kind reply)

    abbrev IsOfReply : Reply (Option DockerBlock) → Text × DockerRegistry → Type 0
    IsOfReply reply e = (name ≡ e.0) × RepliedWith reply e

    reply_value :
        (reply : Reply (Option DockerBlock)) (b : Built)
        → built_of_reply lower host name kind reply ≡ b
        → IfBuilt (IsOfReply reply) (some (name, b))
        → IfBuilt (IsOfReply reply) (reply_row reply)
    reply_value reply b e =
        IfBuilt-at (IsOfReply reply) (reply_row reply) (some (name, b)) (ap (λ x. some (name, x)) e)

    reply_row-IsOfReply :
        (reply : Reply (Option DockerBlock)) → IfBuilt (IsOfReply reply) (reply_row reply)
    unfolding built_of_reply
    reply_row-IsOfReply (failed why) = tt
    reply_row-IsOfReply (replied status body) = elim (Bool-cases (status == 200)) [
      | inr e ↦
          reply_value (replied status body) (reason (refused_status status))
            (rw (e, built_of_reply) refl) tt
      | inl e ↦ elim (Option-cases body) [
        | inl q ↦
            reply_value (replied status body) (reason malformed_response)
              (rw (e, q, built_of_reply) refl) tt
        | inr (block, q) ↦
            let b = registry_from_docker_block name kind (or_no_block block) host source_api in
            reply_value (replied status body) b (rw (e, q, built_of_reply) refl) (
              IfBuilt-map (IsOfBlock name kind host source_api (or_no_block block))
                (IsOfReply (replied status body)) (some (name, b))
                (λ x k. (k.0, (block, replied_at status body block e q, k.1)))
                (block_row-IsOfBlock name kind host source_api (or_no_block block)))
      ]
    ]

  module _ (nexus : Nexus) where
    -- The row names the repository, whose own configuration declares the registry.
    abbrev pub DeclaredBy : Text × DockerRegistry → Row → Type 0
    DeclaredBy e row =
        (is_docker lower row ≡ true)
        × (named row.name ≡ some e.0)
        × (is_docker_type (lower (or_blank row.kind)) ≡ true)
        × RepliedWith (nexus.repository (lower (or_blank row.kind)) e.0) e

    pub api_row-DeclaredBy :
        (row : Row) → IfBuilt (λ e. DeclaredBy e row) (resolve_repo_registry lower host nexus row)
    unfolding resolve_repo_registry
    api_row-DeclaredBy row = elim (Bool-cases (is_docker lower row)) [
      | inr e ↦ at none (rw (e, resolve_repo_registry) refl) tt
      | inl e ↦ elim (Option-cases (named row.name)) [
        | inl q ↦ at none (rw (e, q, resolve_repo_registry) refl) tt
        | inr (name, q) ↦ elim (Bool-cases (is_docker_type (lower (or_blank row.kind)))) [
          | inr t ↦ at none (rw (e, q, t, resolve_repo_registry) refl) tt
          | inl t ↦
              let kind = lower (or_blank row.kind) in
              let reply = nexus.repository kind name in
              at (reply_row name kind reply) (rw (e, q, t, resolve_repo_registry) refl) (
                IfBuilt-map (IsOfReply name kind reply) (λ x. DeclaredBy x row)
                  (reply_row name kind reply)
                  (λ x k. (
                    e,
                    q ∙ ap some k.0,
                    t,
                    subst (λ n. RepliedWith (nexus.repository kind n) x) k.0 k.1,
                  ))
                  (reply_row-IsOfReply name kind reply))
        ]
      ]
    ]
      where
        at :
            (u : Option (Text × Built))
            → resolve_repo_registry lower host nexus row ≡ u
            → IfBuilt (λ e. DeclaredBy e row) u
            → IfBuilt (λ e. DeclaredBy e row) (resolve_repo_registry lower host nexus row)
        at u = IfBuilt-at (λ e. DeclaredBy e row) (resolve_repo_registry lower host nexus row) u
