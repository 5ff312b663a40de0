-- ===== src/RateLimit/Lockout.antt =====
-- Consecutive failures and the lock, with a Redis server that answers.
use rotsy.Base.{
  ℕ, suc, ◌+◌, ◌-◌, ◌≤◌, ◌<◌, ◌≡◌, refl, sym, ap, ◌∙◌, ◌≢◌, inl, inr, true, Option, none, some,
  List, [], ◌∷◌, Text, text_eq, text_eq_iff, leb, if◌then◌else◌, arith, Bool-cases,
}
use rotsy.Redis.{Redis, Entry, live, count_of, deadline_of, Answers, refreshed}
use rotsy.RateLimit.{
  failure_key, lock_key, lockout_threshold, lockout_seconds, failure_memory_seconds, count_failure,
  record_login_failure, lockout_remaining, set_lock, pure,
}

keys_differ : (username : Text) → failure_key username ≢ lock_key username
unfolding failure_key lock_key
keys_differ username e =
    let h : text_eq (failure_key username) (lock_key username) ≡ true = (text_eq_iff _ _).1 e in
    cc h

-- A new value for a live key leaves it live.
pub live-value :
    (now n : ℕ) (entry : Option Entry)
    → live now (some (record { value = n; deadline = deadline_of (live now entry) }))
      ≡ some (record { value = n; deadline = deadline_of (live now entry) })
live-value now n none = refl
live-value now n (some entry) = ground arith

module _ (r : Redis) (answers : Answers r) (username : Text) where
  open r use {Store, stored, incr, expire, set_ex, delete}
  open answers use {incr_lem, expire_lem, set_ex_lem, delete_lem, ttl_lem}

  -- The failures that are still remembered at a time.
  abbrev pub failures : ℕ → Store → ℕ
  failures now s = count_of (live now (stored s (failure_key username)))

  abbrev counted : ℕ → Store → Store
  counted now s =
      (expire (failure_key username) failure_memory_seconds now
        (incr (failure_key username) now s).1).1

  -- Both commands of a failure that sets no lock.
  count_failure_start :
      (now : ℕ) (s : Store)
      → count_failure r username now s
        ≡ (if leb lockout_threshold (suc (failures now s))
              then set_lock r username now
              else pure r 0)
            (counted now s)
  unfolding count_failure
  count_failure_start now s = ground (
    arith,
    incr_lem (failure_key username) now s,
    expire_lem (failure_key username) failure_memory_seconds now
        (incr (failure_key username) now s).1,
  )

  counted-failures :
      (now : ℕ) (s : Store)
      → stored (counted now s) (failure_key username)
        ≡ some (record {
          value = suc (failures now s);
          deadline = some (now + failure_memory_seconds);
        })
  counted-failures now s =
      let e =
        (expire_lem (failure_key username) failure_memory_seconds now
          (incr (failure_key username) now s).1).1.0 in
      e
      ∙ (ap (λ x. refreshed (now + failure_memory_seconds) (live now x))
            (incr_lem (failure_key username) now s).1.0
          ∙ ap (refreshed (now + failure_memory_seconds))
              (live-value now (suc (failures now s)) (stored s (failure_key username))))

  counted-others :
      (now : ℕ) (s : Store) (key : Text)
      → key ≢ failure_key username
      → stored (counted now s) key ≡ stored s key
  counted-others now s key n =
      (expire_lem (failure_key username) failure_memory_seconds now _).1.1 key n
      ∙ (incr_lem (failure_key username) now s).1.1 key n

  abbrev locked : ℕ → Store → Store
  locked now s =
      (delete (failure_key username) now
        (set_ex (lock_key username) lockout_seconds now (counted now s)).1).1

  record_below :
      (now : ℕ) (s : Store)
      → suc (failures now s) < lockout_threshold
      → record_login_failure r true username now s ≡ (0, counted now s)
  unfolding record_login_failure
  record_below now s h = ground (arith, count_failure_start now s)

  record_reaching :
      (now : ℕ) (s : Store)
      → lockout_threshold ≤ suc (failures now s)
      → record_login_failure r true username now s ≡ (lockout_seconds, locked now s)
  unfolding record_login_failure set_lock
  record_reaching now s h = ground (
    arith,
    count_failure_start now s,
    set_ex_lem (lock_key username) lockout_seconds now (counted now s),
    delete_lem (failure_key username) now
        (set_ex (lock_key username) lockout_seconds now (counted now s)).1,
  )

  locked-lock :
      (now : ℕ) (s : Store)
      → stored (locked now s) (lock_key username)
        ≡ some (record { value = 1; deadline = some (now + lockout_seconds) })
  locked-lock now s =
      (delete_lem (failure_key username) now _).1.1 (lock_key username)
        (λ e. keys_differ username (sym e))
      ∙ (set_ex_lem (lock_key username) lockout_seconds now (counted now s)).1.0

  locked-failures : (now : ℕ) (s : Store) → stored (locked now s) (failure_key username) ≡ none
  locked-failures now s = (delete_lem (failure_key username) now _).1.0

  -- One failure, below the threshold and at it.
  pub record_cases :
      (now : ℕ) (s : Store)
      → let (answer, s') = record_login_failure r true username now s in
        (suc (failures now s) < lockout_threshold
          → (answer ≡ 0)
            × (stored s' (failure_key username)
                ≡ some (record {
                  value = suc (failures now s);
                  deadline = some (now + failure_memory_seconds);
                }))
            × (stored s' (lock_key username) ≡ stored s (lock_key username)))
        × (lockout_threshold ≤ suc (failures now s)
            → (answer ≡ lockout_seconds)
              × (stored s' (failure_key username) ≡ none)
              × (stored s' (lock_key username)
                  ≡ some (record { value = 1; deadline = some (now + lockout_seconds) })))
  record_cases now s = (
    λ h. rw (record_below now s h) (
      refl,
      counted-failures now s,
      counted-others now s (lock_key username) (λ e. keys_differ username (sym e)),
    ),
    λ h. rw (record_reaching now s h) (refl, locked-failures now s, locked-lock now s),
  )

  -- What one failure does, with a Redis that answers. Below the threshold it is counted for
  -- another fifteen minutes and the lock is left alone; at the threshold the lock is set for sixty seconds and the count dropped.
  pub record_login_failure_lem :
      (now : ℕ) (s : Store)
      → let (answer, s') = record_login_failure r true username now s in
        let reached = leb lockout_threshold (suc (failures now s)) in
        (answer ≡ (if reached then lockout_seconds else 0))
        × (stored s' (failure_key username) ≡ (
            if reached
            then none
            else some (record {
              value = suc (failures now s);
              deadline = some (now + failure_memory_seconds);
            })))
        × (stored s' (lock_key username) ≡ (
            if reached
            then some (record { value = 1; deadline = some (now + lockout_seconds) })
            else stored s (lock_key username)))
  record_login_failure_lem now s =
      let (below, reaching) = record_cases now s in
      elim (Bool-cases (leb lockout_threshold (suc (failures now s)))) [
        | inl e ↦ rw e (reaching (ground arith))
        | inr e ↦ rw e (below (ground arith))
      ]

  -- The seconds left on a lock that stands in the store.
  pub lockout_remaining-stored :
      (now : ℕ) (s : Store) (until : ℕ)
      → stored s (lock_key username) ≡ some (record { value = 1; deadline = some until })
      → lockout_remaining r true username now s ≡ (until - now, s)
  unfolding lockout_remaining
  lockout_remaining-stored now s until h = ground (arith, ttl_lem (lock_key username) now s)

  -- A failure is remembered for fifteen minutes.
  pub remembered :
      (t u n : ℕ) (s : Store)
      → stored s (failure_key username)
        ≡ some (record { value = n; deadline = some (t + failure_memory_seconds) })
      → u < t + failure_memory_seconds
      → failures u s ≡ n
  remembered t u n s h lt = rw h (ground arith)

  -- The store after failures at the given times, and what each of them answered.
  abbrev pub record_all : List ℕ → Store → List ℕ × Store
  record_all [] s = ([], s)
  record_all (t ∷ ts) s =
      let (answer, s') = record_login_failure r true username t s in
      let (more, s'') = record_all ts s' in (answer ∷ more, s'')
