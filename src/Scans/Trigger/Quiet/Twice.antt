-- ===== src/Scans/Trigger/Quiet/Twice.antt =====
-- Observing a repository, and observing it again while nothing was pushed.
use rotsy.Base.{
  ℕ, ◌≡◌, refl, ap, ◌∙◌, true, false, Option, none, some, List, [], ◌∷◌, ◌++◌, Text, text_eq,
  text_eq_iff, All, arith,
}
use rotsy.Scans.Ledger.{ScanTarget, ScannedImage, Db, ImageRef}
use rotsy.Scans.Trigger.{observe_image, observe_images, observe_target, scanners_for, ◌>>=◌}
use rotsy.Scans.Trigger.Adoption.{AreDistinct}
use rotsy.Scans.Trigger.Push.{wants_scan}
use rotsy.Scans.Trigger.Quiet.{IsSettled}
use rotsy.Scans.Trigger.Quiet.Rounds.{
  Round, IsRound, IsSince, Observed, IsObserved, AsksNothing, observe_image-IsRound, IsSince-after,
  asks_after,
}

module _ (lower : Text → Text) (new_job_id : ℕ → Text) (repo : Text) (scanners : List Text) where
  abbrev Seen : List ImageRef → Db → Option (List Text × Db) → Type 0
  Seen = IsObserved lower new_job_id repo scanners

  other_way :
      (image : Text) (images : List ImageRef)
      → All (λ (other : ImageRef). text_eq image other.image ≡ false) images
      → All (λ (other : ImageRef). text_eq other.image image ≡ false) images
  other_way image [] h = tt
  other_way image (ref ∷ images) (n, h) = (
    ground (arith, text_eq_iff image ref.image, text_eq_iff ref.image image),
    other_way image images h,
  )

  IsObserved-cons :
      (ref : ImageRef) (images : List ImageRef) (db mid : Db) (ids : List Text)
      (result : Option (List Text × Db))
      → All (λ (other : ImageRef). text_eq ref.image other.image ≡ false) images
      → Round lower new_job_id repo scanners ref db ids mid
      → Seen images mid result
      → Seen (ref ∷ images) db (result >>= λ (more, db'). some (ids ++ more, db'))
  IsObserved-cons ref images db mid ids none ne round h = h
  IsObserved-cons ref images db mid ids (some (more, db')) ne round h =
      let (entry, found, quiet) = round.settled in
      record {
        settled =
            ((entry, h.others ref.image (other_way ref.image images ne) ∙ found, quiet), h.settled);
        queue = h.queue ∙ round.queue;
        others = λ image (n, ns). h.others image ns ∙ round.others repo image (ground (arith, n));
        quiet = λ (a, asks).
            let (no_ids, jobs) = round.quiet a in
            let (no_more, jobs') =
              h.quiet (
                asks_after lower new_job_id repo scanners ref images db mid round.others ne asks) in
            (cc, jobs' ∙ jobs);
      }

  observe_images-IsObserved :
      (known : List ScannedImage) (images : List ImageRef) (db : Db)
      → db.queue_up ≡ true
      → AreDistinct images
      → All (λ (ref : ImageRef). IsSince lower new_job_id repo scanners known ref db) images
      → Seen images db (observe_images lower new_job_id repo known scanners images db)
  unfolding observe_images
  observe_images-IsObserved known [] db up d since = record {
    settled = tt;
    queue = refl;
    others = λ image h. refl;
    quiet = λ h. (refl, refl);
  }
  observe_images-IsObserved known (ref ∷ images) db up (ne, d) (s, since) =
      rest (observe_image lower new_job_id repo known scanners ref db)
        (observe_image-IsRound lower new_job_id repo scanners known ref db up s)
        (λ db' up' h. observe_images-IsObserved known images db' up' d h)
    where
      rest :
          (result : Option (List Text × Db))
          → IsRound lower new_job_id repo scanners ref db result
          → ((db' : Db)
              → db'.queue_up ≡ true
              → All
                  (λ (other : ImageRef). IsSince lower new_job_id repo scanners known other db')
                  images
              → Seen images db' (observe_images lower new_job_id repo known scanners images db'))
          → Seen (ref ∷ images) db (
              result >>= λ (ids, db').
              observe_images lower new_job_id repo known scanners images db' >>= λ (more, db'').
              some (ids ++ more, db''))
      rest none h again = absurd h
      rest (some (ids, mid)) round again = IsObserved-cons ref images db mid ids _ ne round (
          again mid (round.queue ∙ up) (
            IsSince-after lower new_job_id repo scanners known ref images db mid round.others ne
              since))

  IsSince-start :
      (db : Db) (images : List ImageRef)
      → All (λ (ref : ImageRef). IsSince lower new_job_id repo scanners db.ledger ref db) images
  IsSince-start db [] = tt
  IsSince-start db (ref ∷ images) =
      (record { still = λ old k. (old, k); fresh = λ k. k }, IsSince-start db images)

  settled_asks :
      (db : Db) (images : List ImageRef)
      → All (IsSettled repo db) images
      → AsksNothing lower new_job_id repo scanners db images
  settled_asks db [] h = tt
  settled_asks db (ref ∷ images) ((entry, found, quiet), h) =
      (ap (wants_scan ref) found ∙ quiet, settled_asks db images h)

  returned :
      (images : List ImageRef) (db : Db) (result : Option (List Text × Db))
      → Seen images db result
      → (ids : List Text) × (db' : Db) × (result ≡ some (ids, db'))
        × Observed lower new_job_id repo scanners images db ids db'
  returned images db none h = absurd h
  returned images db (some (ids, db')) h = (ids, db', refl, h)

-- Once a repository has a baseline, a look at it succeeds and leaves every listed image settled,
-- and a second look at the same images, at any time, queues no scan.
pub observe_target_twice :
    (lower : Text → Text) (new_job_id : ℕ → Text) (target : ScanTarget) (images : List ImageRef)
    (default : List Text) (since now later : ℕ) (db : Db)
    → target.baseline_at ≡ some since
    → db.queue_up ≡ true
    → AreDistinct images
    → (ids : List Text) × (first second : Db) × (observe_target lower new_job_id target images
          default now db
        ≡ some ((0, ids), first))
      × All (IsSettled target.repo first) images
      × (observe_target lower new_job_id target images default later first ≡ some ((0, []), second))
      × (second.jobs ≡ first.jobs)
unfolding observe_target
observe_target_twice lower new_job_id target images default since now later db seen up d =
    let scanners = scanners_for lower new_job_id target default in
    let look = λ (d : Db). observe_images lower new_job_id target.repo d.ledger scanners images d in
    let does = λ (d' : Db) (u : d'.queue_up ≡ true).
      observe_images-IsObserved lower new_job_id target.repo scanners d'.ledger images d' u d
        (IsSince-start lower new_job_id target.repo scanners d' images) in
    let (ids, first, e, h) =
      returned lower new_job_id target.repo scanners images db (look db) (does db up) in
    let (ids', second, e', h') =
      returned lower new_job_id target.repo scanners images first (look first)
        (does first (h.queue ∙ up)) in
    let (none_queued, jobs) =
      h'.quiet (settled_asks lower new_job_id target.repo scanners first images h.settled) in
    (
      ids,
      first,
      second,
      ground (arith, seen, e),
      h.settled,
      ground (arith, seen, e', none_queued),
      jobs,
    )
