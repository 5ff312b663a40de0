-- ===== src/Scanners/Restored.antt =====
-- What a run of Trivy leaves of the pool.
use rotsy.Base.{
  ℕ, ◌+◌, ◌≡◌, refl, Bool, true, false, Option, none, some, List, [], ◌∷◌, Text, Dict, Bool-cases,
  Option-cases, inl, inr, arith, if◌then◌else◌,
}
use rotsy.Registries.{DockerRegistry}
use rotsy.Scanners.Outcome.{ScanOutcome}
use rotsy.Scanners.Replicas.{
  Copy, Disk, Pool, Copying, copied, failed, cancelled, replica_stale, refresh_replica,
  checkin_replica, checkout_replica, has_java_db,
}
use rotsy.Scanners.Held.{times, times-append}
use rotsy.Scanners.Run.{
  Reading, Exec, Credentials, Ran, returned, raised, stopped, is_static_ref, trivy_outcome,
  run_trivy,
}

-- The slots that a run loses: the one that it takes where its copying is cancelled.
abbrev pub lost_slots : Copying → Disk → Pool → Ran ScanOutcome → Pool
lost_slots copying disk pool (returned outcome) = []
lost_slots copying disk pool (raised why) = []
lost_slots copied disk pool stopped = []
lost_slots (failed files) disk pool stopped = []
lost_slots (cancelled files) disk [] stopped = []
lost_slots (cancelled files) disk (slot ∷ pool) stopped =
    if replica_stale slot disk then slot ∷ [] else []

-- As many free and lost slots of the number as there were free ones; a run that waits has taken none.
abbrev pub IsRestored :
    ℕ → Copying → Disk → Pool → Option (Ran ScanOutcome × (Disk × Pool)) → Type 0
IsRestored k copying disk pool none = pool ≡ []
IsRestored k copying disk pool (some (ran, (after, left))) =
    times k left + times k (lost_slots copying disk pool ran) ≡ times k pool

times-checkin :
    (k slot : ℕ) (pool : Pool) → times k (checkin_replica slot pool) ≡ times k (slot ∷ pool)
times-checkin k slot pool = omega (arith, times-append k pool (slot ∷ []))

-- A run whose slot is free again loses none, where its checkout has not copied or is not cancelled.
unstale-lost_slots :
    (k slot : ℕ) (copying : Copying) (disk : Disk) (pool : Pool) (ran : Ran ScanOutcome)
    → replica_stale slot disk ≡ false
    → times k (lost_slots copying disk (slot ∷ pool) ran) ≡ 0
unstale-lost_slots k slot copying disk pool (returned outcome) h = refl
unstale-lost_slots k slot copying disk pool (raised why) h = refl
unstale-lost_slots k slot copied disk pool stopped h = refl
unstale-lost_slots k slot (failed files) disk pool stopped h = refl
unstale-lost_slots k slot (cancelled files) disk pool stopped h = rw h refl

cancelled-lost_slots :
    (k slot : ℕ) (files : Copy) (disk : Disk) (pool : Pool)
    → replica_stale slot disk ≡ true
    → times k (lost_slots (cancelled files) disk (slot ∷ pool) stopped) ≡ times k (slot ∷ [])
cancelled-lost_slots k slot files disk pool h = rw h refl

copied-lost_slots :
    (k : ℕ) (disk : Disk) (pool : Pool) (ran : Ran ScanOutcome)
    → times k (lost_slots copied disk pool ran) ≡ 0
copied-lost_slots k disk pool (returned outcome) = refl
copied-lost_slots k disk pool (raised why) = refl
copied-lost_slots k disk pool stopped = refl

module _ (lower : Text → Text) (reading : Reading) (exec : List Text → Dict Text Text → Exec)
    (binary : Option Text) (registry : DockerRegistry) (image_ref : Text) (creds : Credentials)
    (verify_tls : Bool) (java_image java_fallback : Text) (cache_dir : ℕ → Text) (disk : Disk)
    (k : ℕ) where
  abbrev ran : Copying → Pool → Option (Ran ScanOutcome × (Disk × Pool))
  ran copying pool =
      run_trivy lower reading exec binary registry image_ref creds verify_tls java_image
        java_fallback cache_dir copying disk pool

  -- The run with a stale replica, as its copying ends.
  stale-IsRestored :
      (path : Text) (slot : ℕ) (pool : Pool)
      → binary ≡ some path
      → is_static_ref lower image_ref ≡ true
      → replica_stale slot disk ≡ true
      → (copying : Copying) → IsRestored k copying disk (slot ∷ pool) (ran copying (slot ∷ pool))
  unfolding run_trivy checkout_replica
  stale-IsRestored path slot pool b s e copied =
      let after = refresh_replica slot disk in
      let outcome : Ran ScanOutcome =
        trivy_outcome lower reading exec binary registry image_ref creds verify_tls java_image
          java_fallback cache_dir path slot (has_java_db slot after) in
      rw (b, s, e, run_trivy, checkout_replica)
        (omega (arith, times-checkin k slot pool, copied-lost_slots k disk (slot ∷ pool) outcome))
  stale-IsRestored path slot pool b s e (failed files) =
      rw (b, s, e, run_trivy, checkout_replica) (omega (arith, times-checkin k slot pool))
  stale-IsRestored path slot pool b s e (cancelled files) =
      rw (b, s, e, run_trivy, checkout_replica)
        (omega (arith, cancelled-lost_slots k slot files disk pool e))

  checked_out-IsRestored :
      (path : Text)
      → binary ≡ some path
      → is_static_ref lower image_ref ≡ true
      → (copying : Copying) (pool : Pool) → IsRestored k copying disk pool (ran copying pool)
  unfolding run_trivy checkout_replica
  checked_out-IsRestored path b s copying [] = rw (b, s, run_trivy) refl
  checked_out-IsRestored path b s copying (slot ∷ pool) =
      elim (Bool-cases (replica_stale slot disk)) [
        | inl e ↦ stale-IsRestored path slot pool b s e copying
        | inr e ↦
            let outcome : Ran ScanOutcome =
              trivy_outcome lower reading exec binary registry image_ref creds verify_tls java_image
                java_fallback cache_dir path slot (has_java_db slot disk) in
            rw (b, s, e, run_trivy, checkout_replica)
              (omega (
                arith,
                times-checkin k slot pool,
                unstale-lost_slots k slot copying disk pool outcome e,
              ))
      ]

  -- A run of Trivy gives back the slot that it takes, whether the copying fails, or the scanner cannot
  -- be started, is killed, is cancelled, fails, or writes what cannot be read; only where its task is
  -- cancelled while it copies to a replica that is behind, it loses that slot and no other. It waits
  -- only where no slot is free.
  pub run_trivy-IsRestored :
      (copying : Copying) (pool : Pool) → IsRestored k copying disk pool (ran copying pool)
  unfolding run_trivy
  run_trivy-IsRestored copying pool = elim (Option-cases binary) [
    | inl b ↦ rw (b, run_trivy) (omega arith)
    | inr (path, b) ↦ elim (Bool-cases (is_static_ref lower image_ref)) [
      | inr s ↦ rw (b, s, run_trivy) (omega arith)
      | inl s ↦ checked_out-IsRestored path b s copying pool
    ]
  ]
