-- ===== src/Auth/Granting.antt =====
-- What a principal may do is within what the roles of its user allow, and within the scopes of its token.
use rotsy.Base.{
  ℕ, ◌≡◌, refl, sym, ap, subst, ◌∙◌, ◌↔◌, inl, inr, Bool, true, false, ◌&&◌, ◌||◌, Option, none,
  some, List, [], ◌∷◌, Text, text, text_eq, text_eq_iff, has_text, starts_with, strip, drop,
  if◌then◌else◌, keep_if, all, All, arith, Bool-cases, Option-cases,
}
use rotsy.Auth.{
  AccessToken, User, Tables, token_prefix, add_sorted, sorted_set, all_keys, requested_scopes,
  effective_permissions, find_token, find_user, is_expired, resolve_token,
}
use rotsy.Auth.Request.{resolve_bearer_token_user, get_current_user, require_permission}

has_text-add_sorted :
    (a key : Text) (keys : List Text)
    → has_text a (add_sorted key keys) ≡ (text_eq a key || has_text a keys)
unfolding add_sorted
has_text-add_sorted a key [] = refl
has_text-add_sorted a key (k ∷ keys) =
    ground (arith, has_text-add_sorted a key keys, text_eq_iff key k)

has_text-sorted_set : (a : Text) (keys : List Text) → has_text a (sorted_set keys) ≡ has_text a keys
unfolding sorted_set
has_text-sorted_set a [] = refl
has_text-sorted_set a (key ∷ keys) =
    has_text-add_sorted a key (sorted_set keys)
    ∙ ap (λ b. text_eq a key || b) (has_text-sorted_set a keys)

has_text-keep_if :
    (p : Text → Bool) (a : Text) (keys : List Text)
    → has_text a (keep_if p keys) ≡ (has_text a keys && p a)
has_text-keep_if p a [] = refl
has_text-keep_if p a (key ∷ keys) =
    ground (arith, text_eq_iff a key, has_text-keep_if p a keys, λ (e : a ≡ key). ap p e)

-- The token is not narrowed, or its scopes name the key.
abbrev pub in_scope : AccessToken → Text → Bool
in_scope token key = elim (requested_scopes token.scopes) [
  | [] ↦ true
  | s ∷ ss ↦ has_text key (s ∷ ss)
]

has_text-scoped :
    (keys requested : List Text) (key : Text)
    → has_text key (elim requested [
      | [] ↦ sorted_set keys
      | s ∷ ss ↦ sorted_set (keep_if (λ k. has_text k (s ∷ ss)) keys)
    ])
      ≡ (has_text key keys && (elim requested [ [] ↦ true | s ∷ ss ↦ has_text key (s ∷ ss) ]))
has_text-scoped keys [] key = ground (arith, has_text-sorted_set key keys)
has_text-scoped keys (s ∷ ss) key =
    has_text-sorted_set key (keep_if (λ k. has_text k (s ∷ ss)) keys)
    ∙ has_text-keep_if (λ k. has_text k (s ∷ ss)) key keys

has_text-effective :
    (user : User) (token : AccessToken) (key : Text)
    → has_text key (effective_permissions user token)
      ≡ (has_text key (all_keys user.roles) && in_scope token key)
unfolding effective_permissions
has_text-effective user token key =
    has_text-scoped (all_keys user.roles) (requested_scopes token.scopes) key

-- The keys that a request needs are held by the roles of the user, and within the scopes.
abbrev pub Holds : User → AccessToken → List Text → Type 0
Holds user token required =
    All (λ key. (has_text key (all_keys user.roles) ≡ true) × (in_scope token key ≡ true)) required

all-Holds :
    (user : User) (token : AccessToken) (required : List Text)
    → (all (λ key. has_text key (effective_permissions user token)) required ≡ true)
      ↔ Holds user token required
all-Holds user token [] = ((λ h. tt), (λ h. refl))
all-Holds user token (key ∷ required) = (
  (λ h. ground (arith, h, has_text-effective user token key, (all-Holds user token required).0)),
  (λ h. ground (arith, h, has_text-effective user token key, (all-Holds user token required).1)),
)

if_some :
    {A : Type 0} (b : Bool) (x y : A) → (if b then some x else none) ≡ some y → (b ≡ true) × (x ≡ y)
if_some true x y e = (refl, cc)
if_some false x y e = cc

-- A token that may be used, and its user.
abbrev pub IsUsable : ℕ → Text → Tables → User → AccessToken → Type 0
IsUsable now digest db user token =
    (find_token digest db.tokens ≡ some token)
    × (token.revoked ≡ false)
    × (is_expired now token ≡ false)
    × (find_user token.owner_id db.users ≡ some user)
    × (user.is_active ≡ true)

module _ (hash_token : Text → Text) where
  -- What is known of an answer.
  abbrev Known : ℕ → Text → Tables → Option (User × List Text) → Type 0
  Known now digest db none = Unit
  Known now digest db (some (user, held)) =
      (token : AccessToken) × IsUsable now digest db user token
      × (held ≡ effective_permissions user token)

  resolve_token-usable :
      (now : ℕ) (plaintext : Text) (db : Tables) (user : User) (token : AccessToken)
      → starts_with token_prefix plaintext ≡ true
      → IsUsable now (hash_token plaintext) db user token
      → (resolve_token hash_token now plaintext db).0
        ≡ some (user, effective_permissions user token)
  unfolding resolve_token
  resolve_token-usable now plaintext db user token ours (e, r, x, f, g) =
      let live : (token.revoked || is_expired now token) ≡ false = ground arith in
      rw (ours, e, live, f, g, resolve_token) refl

  resolve_token-Known :
      (now : ℕ) (plaintext : Text) (db : Tables)
      → Known now (hash_token plaintext) db (resolve_token hash_token now plaintext db).0
  unfolding resolve_token
  resolve_token-Known now plaintext db = elim (Bool-cases (starts_with token_prefix plaintext)) [
    | inr other ↦ rw (other, resolve_token) tt
    | inl ours ↦ elim (Option-cases (find_token (hash_token plaintext) db.tokens)) [
      | inl e ↦ rw (ours, e, resolve_token) tt
      | inr (token, e) ↦ elim (Bool-cases (token.revoked || is_expired now token)) [
        | inl dead ↦ rw (ours, e, dead, resolve_token) tt
        | inr live ↦ elim (Option-cases (find_user token.owner_id db.users)) [
          | inl f ↦ rw (ours, e, live, f, resolve_token) tt
          | inr (user, f) ↦ elim (Bool-cases user.is_active) [
            | inr g ↦ rw (ours, e, live, f, g, resolve_token) tt
            | inl g ↦
                let usable : IsUsable now (hash_token plaintext) db user token =
                  (e, ground arith, ground arith, f, g) in
                subst (Known now (hash_token plaintext) db)
                  (sym (resolve_token-usable now plaintext db user token ours usable))
                  (token, usable, refl)
          ]
        ]
      ]
    ]
  ]

  module _ (lower : Text → Text) (subject_of : Text → Option ℕ) where
    -- A request whose `Authorization` header has an API token.
    abbrev pub HasToken : Text → Type 0
    HasToken authorization =
        (starts_with (text "bearer ") (lower authorization) ≡ true)
        × (starts_with token_prefix (strip (drop 7 authorization)) ≡ true)

    -- What the route does with the answer of `resolve_token`.
    abbrev permit : List Text → Option (User × List Text) → Option User
    permit required none = none
    permit required (some (user, held)) =
        if all (λ key. has_text key held) required then some user else none

    permit-Holds :
        (required : List Text) (now : ℕ) (digest : Text) (db : Tables)
        (answer : Option (User × List Text)) (user : User)
        → Known now digest db answer
        → permit required answer ≡ some user
        → (token : AccessToken) × IsUsable now digest db user token × Holds user token required
    permit-Holds required now digest db none user known e = cc
    permit-Holds required now digest db (some (owner, held)) user (token, usable, h) e =
        let (held_all, same) = if_some (all (λ key. has_text key held) required) owner user e in
        let all_held : all (λ key. has_text key (effective_permissions owner token)) required
            ≡ true =
          subst (λ keys. all (λ key. has_text key keys) required ≡ true) h held_all in
        subst (λ u. (t : AccessToken) × IsUsable now digest db u t × Holds u t required) same
          (token, usable, (all-Holds owner token required).0 all_held)

    require_permission-permit :
        (required : List Text) (now : ℕ) (authorization : Text) (cookie : Option Text) (db : Tables)
        → HasToken authorization
        → (require_permission hash_token lower subject_of required now authorization cookie db).0
          ≡ permit required (resolve_token hash_token now (strip (drop 7 authorization)) db).0
    unfolding require_permission get_current_user resolve_bearer_token_user
    require_permission-permit required now authorization cookie db (b, p) =
        elim (Option-cases (resolve_token hash_token now (strip (drop 7 authorization)) db).0) [
          | inl e ↦
              rw (b, p, e, require_permission, get_current_user, resolve_bearer_token_user) refl
          | inr ((user, held), e) ↦ elim (Bool-cases (all (λ key. has_text key held) required)) [
            | inl h ↦
                rw (b, p, e, h, require_permission, get_current_user, resolve_bearer_token_user)
                  refl
            | inr h ↦
                rw (b, p, e, h, require_permission, get_current_user, resolve_bearer_token_user)
                  refl
          ]
        ]

    -- A request with an API token passes a route that needs the given permissions, as some user,
    -- exactly where the token is in the table, is neither revoked nor expired, belongs to that user,
    -- who is active, and each permission is one of a role of the user and within the token's scopes.
    pub require_permission_iff :
        (required : List Text) (now : ℕ) (authorization : Text) (cookie : Option Text) (db : Tables)
        (user : User)
        → HasToken authorization
        → ((require_permission hash_token lower subject_of required now authorization cookie db).0
            ≡ some user)
          ↔ ((token : AccessToken) × IsUsable now
                (hash_token (strip (drop 7 authorization)))
                db
                user
                token
              × Holds user token required)
    require_permission_iff required now authorization cookie db user h = (
      (λ e. passed (sym (require_permission-permit required now authorization cookie db h) ∙ e)),
      (λ (token, usable, holds).
          require_permission-permit required now authorization cookie db h
          ∙ (ap (permit required)
                (resolve_token-usable now (strip (drop 7 authorization)) db user token h.1 usable)
              ∙ rw ((all-Holds user token required).1 holds) refl)),
    )
      where
        passed :
            permit required (resolve_token hash_token now (strip (drop 7 authorization)) db).0
              ≡ some user
            → (token : AccessToken) × IsUsable now
                (hash_token (strip (drop 7 authorization)))
                db
                user
                token
              × Holds user token required
        passed e =
            permit-Holds required now (hash_token (strip (drop 7 authorization))) db _ user
              (resolve_token-Known now (strip (drop 7 authorization)) db) e
