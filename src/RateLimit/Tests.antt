-- ===== src/RateLimit/Tests.antt =====
-- Each theorem about the rate limiter at a concrete server, user and time.
use rotsy.Base.{
  ℕ, ◌+◌, ◌-◌, ◌≡◌, refl, ◌⊎◌, true, Option, none, some, [], ◌∷◌, Text, text, text_eq,
  if◌then◌else◌, arith,
}
use rotsy.Redis.{Entry}
use rotsy.Redis.Memory.{memory, memory-Answers, empty}
use rotsy.RateLimit.{login_per_ip, failure_key, lock_key, lockout_seconds, lockout_remaining}
use rotsy.RateLimit.Lockout.{record_all}
use rotsy.RateLimit.Streak.{last, five_failures_lock}
use rotsy.RateLimit.Login.{throttled, locked_out, login}
use rotsy.RateLimit.Login.Guards.{login_locked}

abbrev ada : Text
ada = text "ada"

abbrev source : Text
source = text "10.0.0.1"

abbrev credentials : Text → Text → Option ℕ
credentials username password = if text_eq password (text "right") then some 3 else none

five_failures_lock_example :
    let (replies, s') =
      record_all memory memory-Answers ada (100 ∷ 200 ∷ 300 ∷ 400 ∷ 500 ∷ []) empty in
    (replies ≡ 0 ∷ 0 ∷ 0 ∷ 0 ∷ lockout_seconds ∷ [])
    × ((now : ℕ)
        → (lockout_remaining memory true ada now s').0
          ≡ last 100 (200 ∷ 300 ∷ 400 ∷ 500 ∷ []) + lockout_seconds - now)
five_failures_lock_example =
    five_failures_lock memory memory-Answers ada 100 (200 ∷ 300 ∷ 400 ∷ 500 ∷ []) empty refl refl
      (omega arith, (omega arith, (omega arith, (omega arith, tt))))

-- A lock on one username, until second 160.
abbrev locked : Text → Option Entry
locked key =
    if text_eq key (lock_key ada) then some (record { value = 1; deadline = some 160 }) else none

login_locked_example :
    let (outcome, s') = login memory credentials true source ada (text "right") 100 locked in
    ((outcome ≡ throttled login_per_ip.window_seconds) ⊎ (outcome ≡ locked_out (160 - 100)))
    × (memory.stored s' (failure_key ada) ≡ memory.stored locked (failure_key ada))
    × (memory.stored s' (lock_key ada) ≡ memory.stored locked (lock_key ada))
unfolding lock_key
login_locked_example =
    login_locked memory memory-Answers credentials source ada (text "right") 100 locked 160 refl
      (omega arith)
