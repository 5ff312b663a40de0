-- ===== src/RateLimit.antt =====
-- The rate limiter and the login lockout, backend/app/core/rate_limit.py, over any Redis server.
-- `connected` is false where `cache is None or cache.redis is None`; `now` is `time.time()` in
-- whole seconds. A chain of commands ends at the first that raises, and keeps what was written.
pub mod Lockout
pub mod Streak
pub mod Login
mod Tests
use rotsy.Base.{
  ℕ, ◌*◌, ◌/◌, Bool, true, false, Option, none, some, List, [], ◌∷◌, ◌++◌, Text, text, leb, ltb,
  ◌==◌, if◌then◌else◌, decimal, take, strip, split_on,
}
use rotsy.Redis.{Redis, Ttl, missing, persistent, seconds}

pub record Limit : Type 0 where
  pub max_attempts : ℕ
  pub window_seconds : ℕ

abbrev pub login_per_ip : Limit
login_per_ip = record { max_attempts = 10; window_seconds = 60 }

abbrev pub analysis_per_user : Limit
analysis_per_user = record { max_attempts = 10; window_seconds = 60 }

abbrev pub lockout_threshold : ℕ
lockout_threshold = 5

abbrev pub lockout_seconds : ℕ
lockout_seconds = 60

abbrev pub failure_memory_seconds : ℕ
failure_memory_seconds = 15 * 60

-- `request.headers.get("x-forwarded-for", "")` and `request.client`
unfoldable pub client_ip : Text → Option Text → Text
unfolding split_on strip
client_ip [] none = text "unknown"
client_ip [] (some host) = host
client_ip (c ∷ forwarded) client = elim (split_on b',' (c ∷ forwarded)) [
  | [] ↦ []
  | first ∷ _ ↦ take 64 (strip first)
]

-- The first 64 characters of the username name the two keys.
unfoldable pub failure_key : Text → Text
failure_key username = text "login-fail:" ++ take 64 username

unfoldable pub lock_key : Text → Text
lock_key username = text "login-lock:" ++ take 64 username

unfoldable pub window_key : Text → Text → ℕ → Text
window_key bucket subject window =
    text "ratelimit:" ++ (bucket ++ (text ":" ++ (subject ++ (text ":" ++ decimal window))))

module _ (r : Redis) where
  open r use {Store, incr, expire, set_ex, delete, ttl}

  abbrev pub Call : Type 0 → Type 0
  Call A = Store → Option A × Store

  infixl 5 ◌>>=◌ ◌>>◌
  abbrev pub ◌>>=◌ : {A B : Type 0} → Call A → (A → Call B) → Call B
  ◌>>=◌ m f s = let (reply, s') = m s in elim reply [ none ↦ (none, s') | some a ↦ f a s' ]

  abbrev pub ◌>>◌ : {A B : Type 0} → Call A → Call B → Call B
  m >> k = m >>= λ _. k

  abbrev pub pure : {A : Type 0} → A → Call A
  pure a s = (some a, s)

  -- `try: … except Exception:` with the value that is returned then.
  abbrev pub try_or : {A : Type 0} → A → Call A → Store → A × Store
  try_or other m s = let (reply, s') = m s in elim reply [ none ↦ (other, s') | some a ↦ (a, s') ]

  -- The body of `allow` within its `try`.
  unfoldable pub count_attempt : Text → Limit → ℕ → Call Bool
  count_attempt key limit now = do
    count ← incr key now
    if count == 1 then expire key limit.window_seconds now else pure tt
    pure (leb count limit.max_attempts)

  -- A window of no seconds divides by zero outside the `try`; both limits of the program are
  -- longer, and the length is a premise where it matters.
  unfoldable pub allow : Bool → Text → Text → Limit → ℕ → Store → Bool × Store
  unfolding count_attempt
  allow false bucket subject limit now s = (true, s)
  allow true bucket subject limit now s =
      let key = window_key bucket subject (now / limit.window_seconds) in
      try_or true (count_attempt key limit now) s

  unfoldable pub reset : Bool → Text → Text → Limit → ℕ → Store → Store
  reset false bucket subject limit now s = s
  reset true bucket subject limit now s =
      (delete (window_key bucket subject (now / limit.window_seconds)) now s).1

  abbrev pub seconds_left : Ttl → ℕ
  seconds_left missing = 0
  seconds_left persistent = 0
  seconds_left (seconds n) = n

  unfoldable pub lockout_remaining : Bool → Text → ℕ → Store → ℕ × Store
  lockout_remaining false username now s = (0, s)
  lockout_remaining true username now s =
      try_or 0 (do reply ← ttl (lock_key username) now; pure (seconds_left reply)) s

  unfoldable pub set_lock : Text → ℕ → Call ℕ
  set_lock username now = do
    set_ex (lock_key username) lockout_seconds now
    delete (failure_key username) now
    pure lockout_seconds

  -- `record_login_failure` within its `try`: the seconds of the lock that was set, or 0.
  unfoldable pub count_failure : Text → ℕ → Call ℕ
  unfolding set_lock
  count_failure username now = do
    failures ← incr (failure_key username) now
    expire (failure_key username) failure_memory_seconds now
    if leb lockout_threshold failures then set_lock username now else pure 0

  unfoldable pub record_login_failure : Bool → Text → ℕ → Store → ℕ × Store
  unfolding count_failure
  record_login_failure false username now s = (0, s)
  record_login_failure true username now s = try_or 0 (count_failure username now) s

  unfoldable pub clear_login_failures : Bool → Text → ℕ → Store → Store
  clear_login_failures false username now s = s
  clear_login_failures true username now s = (delete (failure_key username) now s).1
