-- ===== src/Auth/Tests.antt =====
-- Requests with an API token, and the theorems at concrete inputs.
use rotsy.Base.{
  ℕ, ◌≡◌, refl, ◌↔◌, true, false, Option, none, some, [], ◌∷◌, Text, text, strip, lstrip, drop,
  starts_with, split_on, join_with,
}
use rotsy.Auth.{
  AccessToken, User, Tables, add_sorted, sorted_set, requested_scopes, effective_permissions,
  revoke_token, create_token, resolve_token, list_tokens,
}
use rotsy.Auth.Request.{resolve_bearer_token_user, get_current_user, require_permission}
use rotsy.Auth.Granting.{IsUsable, Holds, HasToken, require_permission_iff}
use rotsy.Auth.Revoking.{revoke_token-resolve_token}

abbrev same : Text → Text
same t = t

abbrev no_session : Text → Option ℕ
no_session cookie = none

abbrev owner : User
owner = record {
  id = 7;
  is_active = true;
  roles = (text "scan:read" ∷ text "jobs:read" ∷ []) ∷ [];
  last_seen_at = none;
}

abbrev no_tokens : Tables
no_tokens = record { tokens = []; users = owner ∷ [] }

abbrev narrow : AccessToken
narrow = record {
  id = 1;
  name = text "ci";
  token_hash = text "shp_x";
  prefix = text "shp_x";
  scopes = text "scan:read";
  owner_id = 7;
  expires_at = some 100;
  last_used_at = none;
  revoked = false;
  revoked_at = none;
}

abbrev one_token : Tables
one_token = record { tokens = narrow ∷ []; users = owner ∷ [] }

created :
    (create_token same (text "x") 1 (text "ci") 7 (text "scan:read" ∷ []) (some 100) no_tokens).1
    ≡ one_token
unfolding create_token join_with
created = refl

listed : list_tokens (some 8) one_token ≡ []
unfolding list_tokens
listed = refl

abbrev header : Text
header = text "bearer shp_x"

has_token : HasToken same same no_session header
unfolding starts_with strip lstrip
has_token = (refl, refl)

-- The scope narrows what the role allows.
narrowed :
    (require_permission same same no_session (text "jobs:read" ∷ []) 50 header none one_token).0
    ≡ none
unfolding require_permission get_current_user resolve_bearer_token_user resolve_token
    effective_permissions requested_scopes sorted_set add_sorted starts_with strip lstrip split_on
narrowed = refl

require_permission_iff_example :
    ((require_permission same same no_session (text "scan:read" ∷ []) 50 header none one_token).0
      ≡ some owner)
    ↔ ((token : AccessToken) × IsUsable 50 (strip (drop 7 header)) one_token owner token
        × Holds owner token (text "scan:read" ∷ []))
require_permission_iff_example =
    require_permission_iff same same no_session (text "scan:read" ∷ []) 50 header none one_token
      owner has_token

revoke_token-resolve_token_example :
    (resolve_token same 60 (text "shp_x") (revoke_token 1 50 one_token).1).0 ≡ none
revoke_token-resolve_token_example =
    revoke_token-resolve_token same 50 60 (text "shp_x") one_token narrow refl refl
