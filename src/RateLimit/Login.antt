-- ===== src/RateLimit/Login.antt =====
-- `login` of backend/app/routers/auth.py: the two guards, the credentials and what follows. The
-- check of the credentials (the user's row, `is_active`, the password hash) is a parameter, as the
-- database and bcrypt decide it; the tokens and cookies of a success are left out.
pub mod Guards
use rotsy.Base.{ℕ, Bool, true, false, Option, none, some, Text, text, if◌then◌else◌, ◌==◌}
use rotsy.Redis.{Redis}
use rotsy.RateLimit.{
  login_per_ip, Limit, allow, reset, lockout_remaining, record_login_failure, clear_login_failures,
}

pub data Outcome : Type 0 where
  -- 429 from the per-source throttle, with its `Retry-After`
  throttled : ℕ → Outcome
  -- 429 from the lockout, with the seconds left
  locked_out : ℕ → Outcome
  -- 401
  unauthorized : Outcome
  -- the id of the user who is signed in
  signed_in : ℕ → Outcome

module _ (r : Redis) (authenticate : Text → Text → Option ℕ) where
  open r use {Store}

  -- From the credentials on.
  unfoldable pub check_credentials : Bool → Text → Text → Text → ℕ → Store → Outcome × Store
  check_credentials connected ip username password now s = elim (authenticate username password) [
    | none ↦
        let (locked_for, s') = record_login_failure r connected username now s in
        ((if locked_for == 0 then unauthorized else locked_out locked_for), s')
    | some user_id ↦
        let s' = clear_login_failures r connected username now s in
        (signed_in user_id, reset r connected (text "login-ip") ip login_per_ip now s')
  ]

  unfoldable pub login : Bool → Text → Text → Text → ℕ → Store → Outcome × Store
  unfolding check_credentials
  login connected ip username password now s =
      let (allowed, s1) = allow r connected (text "login-ip") ip login_per_ip now s in
      if allowed
      then (let (remaining, s2) = lockout_remaining r connected username now s1 in
          if remaining == 0
          then check_credentials connected ip username password now s2
          else (locked_out remaining, s2))
      else (throttled login_per_ip.window_seconds, s1)
