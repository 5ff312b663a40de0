-- ===== src/Auth/Request.antt =====
-- The principal of a request and its permissions: `_resolve_bearer_token_user`, `get_current_user` and
-- `RequirePermission` of backend/app/dependencies.py.
use rotsy.Base.{
  ℕ, ◌+◌, Bool, true, ◌&&◌, Option, none, some, List, [], ◌∷◌, Text, text, has_text, starts_with,
  strip, ltb, ◌==◌, if◌then◌else◌, drop, all,
}
use rotsy.Auth.{User, Tables, token_prefix, find_user, load_user_permissions, resolve_token}

-- What the `Authorization` header says: nothing, a refusal, or a user.
pub data Bearer : Type 0 where
  no_token : Bearer
  refused : Bearer
  resolved : User → List Text → Bearer

module _ (hash_token lower : Text → Text) (subject_of : Text → Option ℕ) where
  -- `_resolve_bearer_token_user`
  unfoldable pub resolve_bearer_token_user : ℕ → Text → Tables → Bearer × Tables
  resolve_bearer_token_user now authorization db =
      let presented = strip (drop 7 authorization) in
      if starts_with (text "bearer ") (lower authorization) && starts_with token_prefix presented
      then elim (resolve_token hash_token now presented db).0 [
        | none ↦ (refused, (resolve_token hash_token now presented db).1)
        | some (user, permissions) ↦
            (resolved user permissions, (resolve_token hash_token now presented db).1)
      ]
      else (no_token, db)

  abbrev pub see_user : ℕ → ℕ → List User → List User
  see_user id now [] = []
  see_user id now (user ∷ users) =
      (if user.id == id then record user { last_seen_at = some now } else user)
      ∷ see_user id now users

  -- Seen more than a minute ago, or never.
  abbrev pub is_stale : ℕ → User → Bool
  is_stale now user = elim user.last_seen_at [ none ↦ true | some seen ↦ ltb (seen + 60) now ]

  -- `get_current_user`; `subject_of` is `none` where the cookie's token is invalid or its subject
  -- is no number.
  unfoldable pub get_current_user :
      ℕ → Text → Option Text → Tables → Option (User × List Text) × Tables
  get_current_user now authorization cookie db =
      let cookie_user : Option (User × List Text) × Tables = elim cookie [
        | none ↦ (none, db)
        | some [] ↦ (none, db)
        | some (c ∷ token) ↦ elim (subject_of (c ∷ token)) [
          | none ↦ (none, db)
          | some id ↦ elim (find_user id db.users) [
            | none ↦ (none, db)
            | some user ↦
                if user.is_active
                then (
                  some (user, load_user_permissions user),
                  if is_stale now user then record db { users = see_user id now db.users } else db,
                )
                else (none, db)
          ]
        ]
      ] in
      elim (resolve_bearer_token_user now authorization db).0 [
        | no_token ↦ cookie_user
        | refused ↦ (none, (resolve_bearer_token_user now authorization db).1)
        | resolved user permissions ↦
            (some (user, permissions), (resolve_bearer_token_user now authorization db).1)
      ]

  -- A request to a route that depends on `RequirePermission(*required)`.
  unfoldable pub require_permission :
      List Text → ℕ → Text → Option Text → Tables → Option User × Tables
  require_permission required now authorization cookie db =
      let (principal, db') = get_current_user now authorization cookie db in
      elim principal [
        | none ↦ (none, db')
        | some (user, held) ↦
            if all (λ key. has_text key held) required then (some user, db') else (none, db')
      ]
