-- ===== src/Auth.antt =====
-- Who a request comes from and what it may do: backend/app/services/access_tokens.py and
-- backend/app/dependencies.py, over the tables of backend/app/models/access_token.py and
-- backend/app/models/user.py. SHA-256, `str.lower` and the reading of a session cookie are
-- parameters. Times are seconds. A request that is refused with 401 or 403 is `none`.
pub mod Request
pub mod Granting
pub mod Revoking
mod Tests
use rotsy.Base.{
  ℕ, zero, suc, ◌+◌, ◌-◌, Bool, true, false, not, ◌&&◌, ◌||◌, Option, none, some, List, [], ◌∷◌,
  ◌++◌, map, Text, text, text_eq, has_text, starts_with, split_on, join_with, strip, ltb, leb, ◌==◌,
  if◌then◌else◌, take, drop, keep_if, all,
}
use rotsy.Retention.{precedes}

pub record AccessToken : Type 0 where
  pub id : ℕ
  pub name : Text
  pub token_hash : Text
  pub prefix : Text
  pub scopes : Text
  pub owner_id : ℕ
  pub expires_at : Option ℕ
  pub last_used_at : Option ℕ
  pub revoked : Bool
  pub revoked_at : Option ℕ

-- The permission keys of each role of the user.
pub record User : Type 0 where
  pub id : ℕ
  pub is_active : Bool
  pub roles : List (List Text)
  pub last_seen_at : Option ℕ

pub record Tables : Type 0 where
  pub tokens : List AccessToken
  pub users : List User

abbrev pub token_prefix : Text
token_prefix = text "shp_"

-- A set of texts, sorted.
unfoldable pub add_sorted : Text → List Text → List Text
unfolding precedes
add_sorted key [] = key ∷ []
add_sorted key (k ∷ keys) =
    let rest = add_sorted key keys in
    if text_eq key k then k ∷ keys else if precedes key k then key ∷ k ∷ keys else k ∷ rest

unfoldable pub sorted_set : List Text → List Text
unfolding add_sorted
sorted_set [] = []
sorted_set (key ∷ keys) = add_sorted key (sorted_set keys)

abbrev pub all_keys : List (List Text) → List Text
all_keys [] = []
all_keys (role ∷ roles) = role ++ all_keys roles

-- `_load_user_permissions`
unfoldable pub load_user_permissions : User → List Text
unfolding sorted_set
load_user_permissions user = sorted_set (all_keys user.roles)

-- `{s for s in scopes.split(",") if s}`
unfoldable pub requested_scopes : Text → List Text
unfolding split_on
requested_scopes scopes = keep_if (λ s. elim s [ [] ↦ false | _ ∷ _ ↦ true ]) (split_on 44 scopes)

unfoldable pub effective_permissions : User → AccessToken → List Text
unfolding sorted_set requested_scopes
effective_permissions user token = elim (requested_scopes token.scopes) [
  | [] ↦ sorted_set (all_keys user.roles)
  | scope ∷ scopes ↦
      sorted_set (keep_if (λ key. has_text key (scope ∷ scopes)) (all_keys user.roles))
]

abbrev pub find_token : Text → List AccessToken → Option AccessToken
find_token digest [] = none
find_token digest (token ∷ tokens) =
    if text_eq token.token_hash digest then some token else find_token digest tokens

abbrev pub find_user : ℕ → List User → Option User
find_user id [] = none
find_user id (user ∷ users) = if user.id == id then some user else find_user id users

abbrev pub change_tokens : ℕ → (AccessToken → AccessToken) → List AccessToken → List AccessToken
change_tokens id change [] = []
change_tokens id change (token ∷ tokens) =
    (if token.id == id then change token else token) ∷ change_tokens id change tokens

abbrev pub is_expired : ℕ → AccessToken → Bool
is_expired now token = elim token.expires_at [ none ↦ false | some expires ↦ leb expires now ]

-- `revoke_token`; the rows are found by their primary key.
abbrev pub find_id : ℕ → List AccessToken → Option AccessToken
find_id id [] = none
find_id id (token ∷ tokens) = if token.id == id then some token else find_id id tokens

unfoldable pub revoke_token : ℕ → ℕ → Tables → Bool × Tables
revoke_token id now db = elim (find_id id db.tokens) [
  | none ↦ (false, db)
  | some token ↦ if token.revoked then (false, db) else (
    true,
    record db {
      tokens = change_tokens id (λ t. record t { revoked = true; revoked_at = some now }) db.tokens;
    },
  )
]

-- `list_tokens`, but for its order.
unfoldable pub list_tokens : Option ℕ → Tables → List AccessToken
list_tokens owner db = elim owner [
  | none ↦ db.tokens
  | some id ↦ keep_if (λ token. token.owner_id == id) db.tokens
]

module _ (hash_token : Text → Text) where
  -- `create_token`, with the random part of the token and the id of the row.
  unfoldable pub create_token : Text → ℕ → Text → ℕ → List Text → Option ℕ → Tables → Text × Tables
  unfolding join_with
  create_token random id name owner scopes expires_at db =
      let plaintext : Text = token_prefix ++ random in
      (
        plaintext,
        record db {
          tokens =
              db.tokens
              ++ (record {
                id = id;
                name = name;
                token_hash = hash_token plaintext;
                prefix = take 12 plaintext;
                scopes = join_with (text ",") scopes;
                owner_id = owner;
                expires_at = expires_at;
                last_used_at = none;
                revoked = false;
                revoked_at = none;
              }
                  ∷ []);
        },
      )

  -- `resolve_token`
  unfoldable pub resolve_token : ℕ → Text → Tables → Option (User × List Text) × Tables
  unfolding effective_permissions starts_with
  resolve_token now plaintext db =
      if starts_with token_prefix plaintext
      then elim (find_token (hash_token plaintext) db.tokens) [
        | none ↦ (none, db)
        | some token ↦
            if token.revoked || is_expired now token
            then (none, db)
            else elim (find_user token.owner_id db.users) [
              | none ↦ (none, db)
              | some user ↦
                  if user.is_active
                  then (
                    some (user, effective_permissions user token),
                    record db {
                      tokens =
                          change_tokens token.id (λ t. record t { last_used_at = some now })
                            db.tokens;
                    },
                  )
                  else (none, db)
            ]
      ]
      else (none, db)
