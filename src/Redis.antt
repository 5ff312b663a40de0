-- ===== src/Redis.antt =====
-- The Redis server, which the program calls through the `redis` package: the commands that the
-- rate limiter sends, and what Redis documents of them. A command that fails raises; nothing is
-- said of the store after it. Time is counted in whole seconds.
pub mod Memory
use rotsy.Base.{
  ℕ, zero, suc, ◌+◌, ◌-◌, ◌≤◌, ◌≡◌, ◌≢◌, Bool, true, false, Option, none, some, List, [], Text, leb,
  if◌then◌else◌,
}

-- A string value that is a number, and the second at which it expires.
pub record Entry : Type 0 where
  pub value : ℕ
  pub deadline : Option ℕ

-- A key is gone once its deadline is reached.
abbrev pub live : ℕ → Option Entry → Option Entry
live now none = none
live now (some entry) = elim entry.deadline [
  | none ↦ some entry
  | some deadline ↦ if leb deadline now then none else some entry
]

abbrev pub count_of : Option Entry → ℕ
count_of none = 0
count_of (some entry) = entry.value

abbrev pub deadline_of : Option Entry → Option ℕ
deadline_of none = none
deadline_of (some entry) = entry.deadline

-- The reply to `TTL`: -2, -1, or the seconds left.
pub data Ttl : Type 0 where
  missing : Ttl
  persistent : Ttl
  seconds : ℕ → Ttl

abbrev pub ttl_of : ℕ → Option Entry → Ttl
ttl_of now none = missing
ttl_of now (some entry) = elim entry.deadline [
  | none ↦ persistent
  | some deadline ↦ seconds (deadline - now)
]

abbrev pub refreshed : ℕ → Option Entry → Option Entry
refreshed deadline none = none
refreshed deadline (some entry) = some (record entry { deadline = some deadline })

pub record Redis : Type 1 where
  pub Store : Type 0
  -- what is stored under a key, expired or not
  pub stored : Store → Text → Option Entry
  pub incr : Text → ℕ → Store → Option ℕ × Store
  pub expire : Text → ℕ → ℕ → Store → Option (Unit {0}) × Store
  pub set_ex : Text → ℕ → ℕ → Store → Option (Unit {0}) × Store
  pub delete : Text → ℕ → Store → Option (Unit {0}) × Store
  pub ttl : Text → ℕ → Store → Option Ttl × Store

module _ (r : Redis) where
  open r use {Store, stored, incr, expire, set_ex, delete, ttl}

  -- A command sets one key to a value and leaves every other key as it was.
  abbrev pub Sets : Store → Text → Option Entry → Store → Type 0
  Sets s key entry s' =
      (stored s' key ≡ entry) × ((other : Text) → other ≢ key → stored s' other ≡ stored s other)

  -- The documented effect of each command, with a server that answers.
  pub record Answers : Type 0 where
    pub incr_lem :
        (key : Text) (now : ℕ) (s : Store)
        → let old = live now (stored s key) in
          ((incr key now s).0 ≡ some (suc (count_of old)))
          × Sets s key
              (some (record { value = suc (count_of old); deadline = deadline_of old }))
              (incr key now s).1
    pub expire_lem :
        (key : Text) (span now : ℕ) (s : Store)
        → ((expire key span now s).0 ≡ some tt)
          × Sets s key (refreshed (now + span) (live now (stored s key))) (expire key span now s).1
    pub set_ex_lem :
        (key : Text) (span now : ℕ) (s : Store)
        → ((set_ex key span now s).0 ≡ some tt)
          × Sets s key
              (some (record { value = 1; deadline = some (now + span) }))
              (set_ex key span now s).1
    pub delete_lem :
        (key : Text) (now : ℕ) (s : Store)
        → ((delete key now s).0 ≡ some tt) × Sets s key none (delete key now s).1
    pub ttl_lem :
        (key : Text) (now : ℕ) (s : Store)
        → ((ttl key now s).0 ≡ some (ttl_of now (live now (stored s key))))
          × ((ttl key now s).1 ≡ s)
