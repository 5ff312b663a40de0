-- ===== src/Scanners/Replicas.antt =====
-- The pool of private copies of Trivy's database: `_slots`, `_replica_stale`, `_refresh_replica`,
-- `_checkout_replica` and `_checkin_replica` of trivy.py. A file is its modification time, which
-- `shutil.copytree` keeps. A scan that finds no free slot waits; the lock makes the check and the
-- copy of one checkout a single step.
use rotsy.Base.{
  ℕ, zero, suc, max, Bool, true, false, ◌||◌, Option, none, some, List, [], ◌∷◌, ◌++◌, ltb, ◌==◌,
  if◌then◌else◌,
}

-- The files of one cache directory: `db/trivy.db` and `java-db/metadata.json`.
pub record Copy : Type 0 where
  pub db : Option ℕ
  pub java : Option ℕ

pub record Disk : Type 0 where
  pub canonical : Copy
  pub has_java_dir : Bool
  pub replicas : ℕ → Copy

-- The free slots, in the order in which they are handed out.
abbrev pub Pool : Type 0
Pool = List ℕ

abbrev pub upto : ℕ → ℕ → List ℕ
upto from zero = []
upto from (suc n) = from ∷ upto (suc from) n

-- `_slots` when it is first called, with the setting for concurrent scans
unfoldable pub slots : ℕ → Pool
slots concurrency = upto 0 (max 1 concurrency)

-- A copy that is missing, or older than the file.
abbrev pub is_behind : ℕ → Option ℕ → Bool
is_behind written none = true
is_behind written (some copied) = ltb copied written

unfoldable pub replica_stale : ℕ → Disk → Bool
replica_stale slot disk = elim disk.canonical.db [
  | none ↦ false
  | some written ↦ is_behind written (disk.replicas slot).db || elim disk.canonical.java [
    | none ↦ false
    | some java ↦ is_behind java (disk.replicas slot).java
  ]
]

unfoldable pub write_replica : ℕ → Copy → Disk → Disk
write_replica slot files disk = record disk {
  replicas = λ other. if other == slot then files else disk.replicas other;
}

unfoldable pub refresh_replica : ℕ → Disk → Disk
unfolding write_replica
refresh_replica slot disk =
    write_replica slot
      (record {
        db = disk.canonical.db;
        java = if disk.has_java_dir then disk.canonical.java else none;
      })
      disk

abbrev pub checkin_replica : ℕ → Pool → Pool
checkin_replica slot pool = pool ++ (slot ∷ [])

-- How the copying of a checkout ends: it is done, it raises, or the task is cancelled at an `await`
-- of it. The last two leave some files of the replica.
pub data Copying : Type 0 where
  copied : Copying
  failed : Copy → Copying
  cancelled : Copy → Copying

-- A checkout that gives a slot, raises an error, or ends with `CancelledError`.
pub data Checkout : Type 0 where
  slot_given : ℕ → Checkout
  error_raised : Checkout
  task_cancelled : Checkout

-- The copying under the lock. `except Exception` puts the slot back; `CancelledError` is no
-- `Exception`, and the slot is in no list afterwards.
abbrev pub copy_replica : Copying → ℕ → Disk → Pool → Checkout × (Disk × Pool)
copy_replica copied slot disk pool = (slot_given slot, (refresh_replica slot disk, pool))
copy_replica (failed files) slot disk pool =
    (error_raised, (write_replica slot files disk, checkin_replica slot pool))
copy_replica (cancelled files) slot disk pool =
    (task_cancelled, (write_replica slot files disk, pool))

-- `_checkout_replica`: `none` while no slot is free.
unfoldable pub checkout_replica : Copying → Disk → Pool → Option (Checkout × (Disk × Pool))
checkout_replica copying disk [] = none
checkout_replica copying disk (slot ∷ pool) =
    if replica_stale slot disk
    then some (copy_replica copying slot disk pool)
    else some (slot_given slot, (disk, pool))

unfoldable pub has_java_db : ℕ → Disk → Bool
has_java_db slot disk = elim (disk.replicas slot).java [ none ↦ false | some at ↦ true ]
