-- ===== src/RateLimit/Login/Guards.antt =====
-- What the order of the guards in `login` gives.
use rotsy.Base.{
  ℕ, suc, ◌+◌, ◌-◌, ◌≤◌, ◌<◌, ◌/◌, ◌≡◌, refl, ap, ◌∙◌, ◌≢◌, ◌⊎◌, inl, inr, true, Option, none, some,
  Text, text, text_eq, text_eq_iff, leb, if◌then◌else◌, ◌==◌, arith, Bool-cases,
}
use rotsy.Redis.{Redis, Entry, Answers, live, count_of, refreshed}
use rotsy.RateLimit.{
  login_per_ip, Limit, allow, reset, lockout_remaining, clear_login_failures, failure_key, lock_key,
  window_key, count_attempt,
}
use rotsy.RateLimit.Lockout.{lockout_remaining-stored, live-value}
use rotsy.RateLimit.Login.{throttled, locked_out, signed_in, login, check_credentials}

window-ne-lock :
    (bucket subject username : Text) (w : ℕ) → lock_key username ≢ window_key bucket subject w
unfolding window_key lock_key
window-ne-lock bucket subject username w e =
    let h : text_eq (lock_key username) (window_key bucket subject w) ≡ true =
      (text_eq_iff _ _).1 e in
    cc h

window-ne-failure :
    (bucket subject username : Text) (w : ℕ) → failure_key username ≢ window_key bucket subject w
unfolding window_key failure_key
window-ne-failure bucket subject username w e =
    let h : text_eq (failure_key username) (window_key bucket subject w) ≡ true =
      (text_eq_iff _ _).1 e in
    cc h

module _ (r : Redis) (answers : Answers r) (bucket subject : Text) (limit : Limit) (now : ℕ) where
  open r use {Store, stored, incr, expire}
  open answers use {incr_lem, expire_lem}

  abbrev pub bucket_key : Text
  bucket_key = window_key bucket subject (now / limit.window_seconds)

  -- The first attempt of a window also sets its expiry.
  counted : Store → Store
  counted s =
      let s1 = (incr bucket_key now s).1 in
      if suc (count_of (live now (stored s bucket_key))) == 1
      then (expire bucket_key limit.window_seconds now s1).1
      else s1

  allow-counted :
      (s : Store)
      → allow r true bucket subject limit now s
        ≡ (leb (suc (count_of (live now (stored s bucket_key)))) limit.max_attempts, counted s)
  unfolding allow count_attempt counted
  allow-counted s = ground (
    arith,
    incr_lem bucket_key now s,
    expire_lem bucket_key limit.window_seconds now (incr bucket_key now s).1,
  )

  counted-others :
      (s : Store) (key : Text) → key ≢ bucket_key → stored (counted s) key ≡ stored s key
  unfolding counted
  counted-others s key n =
      let s1 = (incr bucket_key now s).1 in
      let first = (incr_lem bucket_key now s).1.1 key n in
      let second = (expire_lem bucket_key limit.window_seconds now s1).1.1 key n in
      elim (Bool-cases (suc (count_of (live now (stored s bucket_key))) == 1)) [
        | inl e ↦ rw (e, second) first
        | inr e ↦ rw e first
      ]

  counted-count :
      (s : Store)
      → count_of (stored (counted s) bucket_key) ≡ suc (count_of (live now (stored s bucket_key)))
  unfolding counted
  counted-count s =
      let s1 = (incr bucket_key now s).1 in
      let first = (incr_lem bucket_key now s).1.0 in
      let second = (expire_lem bucket_key limit.window_seconds now s1).1.0 in
      let n = suc (count_of (live now (stored s bucket_key))) in
      let kept = live-value now n (stored s bucket_key) in
      let value = λ (x : Option Entry). count_of (refreshed (now + limit.window_seconds) x) in
      elim (Bool-cases (n == 1)) [
        | inl e ↦
            rw (e, second) (ap (λ (x : Option Entry). value (live now x)) first ∙ ap value kept)
        | inr e ↦ rw e (ap count_of first)
      ]

  -- With a window of at least a second, an attempt is let through exactly while the window has seen
  -- fewer than the limit before it, is counted, and touches no key but the window's own.
  pub allow_lem :
      (s : Store)
      → 1 ≤ limit.window_seconds
      → let (allowed, s') = allow r true bucket subject limit now s in
        (allowed ≡ leb (suc (count_of (live now (stored s bucket_key)))) limit.max_attempts)
        × (count_of (stored s' bucket_key) ≡ suc (count_of (live now (stored s bucket_key))))
        × ((key : Text) → key ≢ bucket_key → stored s' key ≡ stored s key)
  allow_lem s positive = rw (allow-counted s) (refl, counted-count s, counted-others s)

module _ (r : Redis) (answers : Answers r) (authenticate : Text → Text → Option ℕ)
    (ip username password : Text) (now : ℕ) where
  open r use {Store, stored, delete}
  open answers use {delete_lem}

  -- While a lock stands, with a Redis that answers, the attempt is refused whatever the password
  -- is, and neither the lock nor the count of failures is touched.
  pub login_locked :
      (s : Store) (until : ℕ)
      → stored s (lock_key username) ≡ some (record { value = 1; deadline = some until })
      → now < until
      → let (outcome, s') = login r authenticate true ip username password now s in
        ((outcome ≡ throttled login_per_ip.window_seconds) ⊎ (outcome ≡ locked_out (until - now)))
        × (stored s' (failure_key username) ≡ stored s (failure_key username))
        × (stored s' (lock_key username) ≡ stored s (lock_key username))
  unfolding login
  login_locked s until lock before =
      let s1 = counted r answers (text "login-ip") ip login_per_ip now s in
      let step = allow-counted r answers (text "login-ip") ip login_per_ip now s in
      let others = counted-others r answers (text "login-ip") ip login_per_ip now s in
      let same_lock = others (lock_key username) (window-ne-lock _ ip username _) in
      let same_count = others (failure_key username) (window-ne-failure _ ip username _) in
      let left = lockout_remaining-stored r answers username now s1 until (same_lock ∙ lock) in
      elim (Bool-cases (allow r true (text "login-ip") ip login_per_ip now s).0) [
        | inl a ↦ ground (arith, a, step, left, same_lock, same_count)
        | inr a ↦ ground (arith, a, step, left, same_lock, same_count)
      ]

  cleared :
      (s : Store)
      → stored
          (reset r true
            (text "login-ip")
            ip
            login_per_ip
            now
            (clear_login_failures r true username now s))
          (failure_key username)
        ≡ none
  unfolding clear_login_failures reset
  cleared s =
      let window = window_key (text "login-ip") ip (now / login_per_ip.window_seconds) in
      (delete_lem window now (delete (failure_key username) now s).1).1.1 (failure_key username)
        (window-ne-failure (text "login-ip") ip username _)
      ∙ (delete_lem (failure_key username) now s).1.0

  check_signed_in :
      (s : Store) (user_id : ℕ)
      → let (outcome, s') = check_credentials r authenticate true ip username password now s in
        outcome ≡ signed_in user_id
        → (authenticate username password ≡ some user_id)
          × (stored s' (failure_key username) ≡ none)
  unfolding check_credentials
  check_signed_in s user_id h = ground (arith, cleared s)

  -- Only valid credentials sign in, only an attempt that the source's window lets through and
  -- that meets no lock, and then no failure is remembered. Redis is connected and answers.
  pub login_signed_in :
      (s : Store) (user_id : ℕ)
      → (login r authenticate true ip username password now s).0 ≡ signed_in user_id
      → (authenticate username password ≡ some user_id)
        × ((allow r true (text "login-ip") ip login_per_ip now s).0 ≡ true)
        × ((lockout_remaining r true username now
              (allow r true (text "login-ip") ip login_per_ip now s).1).0
            ≡ 0)
        × (stored (login r authenticate true ip username password now s).1 (failure_key username)
            ≡ none)
  unfolding login
  login_signed_in s user_id h =
      let s1 = (allow r true (text "login-ip") ip login_per_ip now s).1 in
      let s2 = (lockout_remaining r true username now s1).1 in
      elim (Bool-cases (allow r true (text "login-ip") ip login_per_ip now s).0) [
        | inl a ↦ elim (Bool-cases ((lockout_remaining r true username now s1).0 == 0)) [
          | inl b ↦ ground (arith, a, b, check_signed_in s2 user_id)
          | inr b ↦ ground (arith, a, b)
        ]
        | inr a ↦ ground (arith, a)
      ]
