-- ===== src/Auth/Revoking.antt =====
-- A token that was revoked does not authenticate any more.
use rotsy.Base.{
  ℕ, ◌≡◌, refl, ap, ◌∙◌, inl, inr, true, false, ◌||◌, none, some, List, [], ◌∷◌, Text, starts_with,
  ==_iff, arith, Bool-cases,
}
use rotsy.Auth.{
  AccessToken, Tables, token_prefix, find_token, find_id, is_expired, change_tokens, revoke_token,
  resolve_token,
}

abbrev revoked_at_time : ℕ → AccessToken → AccessToken
revoked_at_time now token = record token { revoked = true; revoked_at = some now }

-- The first token of a hash is found again, changed where it is the one that is revoked.
find_token-change_tokens :
    (digest : Text) (now : ℕ) (token : AccessToken) (tokens : List AccessToken)
    → find_token digest tokens ≡ some token
    → find_token digest (change_tokens token.id (revoked_at_time now) tokens)
      ≡ some (revoked_at_time now token)
find_token-change_tokens digest now token [] h = cc
find_token-change_tokens digest now token (t ∷ tokens) h = ground (
  arith,
  h,
  find_token-change_tokens digest now token tokens,
  ==_iff t.id token.id,
  λ (e : t ≡ token). ap (λ u. u.id) e,
  λ (e : t ≡ token). ap (revoked_at_time now) e,
)

revoke-again :
    (now : ℕ) (db : Tables) (token : AccessToken)
    → find_id token.id db.tokens ≡ some token
    → token.revoked ≡ true
    → (revoke_token token.id now db).1 ≡ db
unfolding revoke_token
revoke-again now db token k r = simp (k, r, revoke_token)

revoke-first :
    (now : ℕ) (db : Tables) (token : AccessToken)
    → find_id token.id db.tokens ≡ some token
    → token.revoked ≡ false
    → (revoke_token token.id now db).1
      ≡ record db { tokens = change_tokens token.id (revoked_at_time now) db.tokens }
unfolding revoke_token
revoke-first now db token k r = simp (k, r, revoke_token)

module _ (hash_token : Text → Text) where
  resolve_token-revoked :
      (now : ℕ) (plaintext : Text) (db : Tables) (token : AccessToken)
      → find_token (hash_token plaintext) db.tokens ≡ some token
      → token.revoked ≡ true
      → (resolve_token hash_token now plaintext db).0 ≡ none
  unfolding resolve_token
  resolve_token-revoked now plaintext db token e r =
      let dead : (token.revoked || is_expired now token) ≡ true = ground arith in
      elim (Bool-cases (starts_with token_prefix plaintext)) [
        | inl ours ↦ rw (ours, e, dead, resolve_token) refl
        | inr other ↦ rw (other, resolve_token) refl
      ]

  -- A token that is revoked, with its row found by its hash and by its key, is refused from then on.
  pub revoke_token-resolve_token :
      (now later : ℕ) (plaintext : Text) (db : Tables) (token : AccessToken)
      → find_token (hash_token plaintext) db.tokens ≡ some token
      → find_id token.id db.tokens ≡ some token
      → (resolve_token hash_token later plaintext (revoke_token token.id now db).1).0 ≡ none
  unfolding revoke_token
  revoke_token-resolve_token now later plaintext db token e k = elim (Bool-cases token.revoked) [
    | inl already ↦
        ap (λ d. (resolve_token hash_token later plaintext d).0)
          (revoke-again now db token k already)
        ∙ resolve_token-revoked later plaintext db token e already
    | inr live ↦
        ap (λ d. (resolve_token hash_token later plaintext d).0) (revoke-first now db token k live)
        ∙ resolve_token-revoked later plaintext _ (revoked_at_time now token)
            (find_token-change_tokens (hash_token plaintext) now token db.tokens e) refl
  ]
