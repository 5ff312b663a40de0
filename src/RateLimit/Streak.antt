-- ===== src/RateLimit/Streak.antt =====
-- Five failures in a row lock a username for sixty seconds, counted from the fifth.
use rotsy.Base.{
  ℕ, zero, suc, ◌+◌, ◌-◌, ◌<◌, ◌≡◌, refl, ap, ◌∙◌, true, some, List, [], ◌∷◌, Text, arith, length,
}
use rotsy.Redis.{Redis, Answers}
use rotsy.RateLimit.{
  lock_key, lockout_threshold, lockout_seconds, failure_memory_seconds, record_login_failure,
  lockout_remaining,
}
use rotsy.RateLimit.Lockout.{
  failures, record_cases, remembered, record_all, lockout_remaining-stored,
}

-- Each failure comes while the one before it is remembered.
abbrev pub IsRun : ℕ → List ℕ → Type 0
IsRun t [] = Unit
IsRun t (u ∷ us) = (u < t + failure_memory_seconds) × IsRun u us

abbrev pub last : ℕ → List ℕ → ℕ
last t [] = t
last t (u ∷ us) = last u us

-- `n` answers of 0 and then the lock.
abbrev pub zeros_then_lock : ℕ → List ℕ
zeros_then_lock zero = lockout_seconds ∷ []
zeros_then_lock (suc n) = 0 ∷ zeros_then_lock n

module _ (r : Redis) (answers : Answers r) (username : Text) where
  open r use {Store, stored}

  -- With `n` failures remembered and one short of the threshold still to come after `ts`.
  streak :
      (left n t : ℕ) (ts : List ℕ) (u : ℕ) (s : Store)
      → failures r answers username u s ≡ n
      → n + suc left ≡ lockout_threshold
      → length ts ≡ left
      → IsRun u ts
      → ((record_all r answers username (u ∷ ts) s).0 ≡ zeros_then_lock left)
        × (stored (record_all r answers username (u ∷ ts) s).1 (lock_key username)
            ≡ some (record { value = 1; deadline = some (last u ts + lockout_seconds) }))
  streak zero n t [] u s f e l run =
      let (answer, _, lock) = (record_cases r answers username u s).1 (omega arith) in
      (ap (λ a. a ∷ []) answer, lock)
  streak zero n t (_ ∷ _) u s f e l run = absurd (omega arith)
  streak (suc left) n t [] u s f e l run = absurd (omega arith)
  streak (suc left) n t (u' ∷ ts) u s f e l (soon, run) =
      let (answer, count, _) = (record_cases r answers username u s).0 (omega arith) in
      let s' = (record_login_failure r true username u s).1 in
      let again =
        remembered r answers username u u' (suc (failures r answers username u s)) s' count soon in
      let (later, lock) =
        streak left (suc n) t ts u' s' (again ∙ ap suc f) (omega arith) (omega arith) run in
      (cc, lock)

-- With a Redis that answers: from no remembered failure, five failures, each while the one before
-- is remembered, answer 0, 0, 0, 0 and 60, and then the lock has, at any time, what is left of the
-- sixty seconds after the fifth, and 0 once they are over.
pub five_failures_lock :
    (r : Redis) (answers : Answers r) (username : Text) (t : ℕ) (ts : List ℕ) (s : r.Store)
    → failures r answers username t s ≡ 0
    → length ts ≡ 4
    → IsRun t ts
    → let (replies, s') = record_all r answers username (t ∷ ts) s in
      (replies ≡ 0 ∷ 0 ∷ 0 ∷ 0 ∷ lockout_seconds ∷ [])
      × ((now : ℕ)
          → (lockout_remaining r true username now s').0 ≡ last t ts + lockout_seconds - now)
five_failures_lock r answers username t ts s none_yet four run =
    let (replies, lock) = streak r answers username 4 0 t ts t s none_yet refl four run in
    (replies, λ now. ap (λ p. p.0) (lockout_remaining-stored r answers username now _ _ lock))
