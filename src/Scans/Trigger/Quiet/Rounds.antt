-- ===== src/Scans/Trigger/Quiet/Rounds.antt =====
-- The loop of `observe_target` on a repository with a baseline, and a second look at it.
use rotsy.Base.{
  ℕ, ◌≡◌, refl, ap, ◌∙◌, inl, inr, true, false, Option, none, some, List, [], ◌∷◌, Text, text,
  text_eq, All, arith, Option-cases,
}
use rotsy.Scans.Ledger.{ScannedImage, Db, ImageRef, find_entry}
use rotsy.Scans.Trigger.{queue_found, observe_image, ◌>>=◌}
use rotsy.Scans.Trigger.Push.{wants_scan, enqueue-QueuesOne}
use rotsy.Scans.Trigger.Ingest.{enqueue_up}
use rotsy.Scans.Trigger.Quiet.{IsSettled, IsFound, Elsewhere, observe_new, observe_known}

module _ (lower : Text → Text) (new_job_id : ℕ → Text) (repo : Text) (scanners : List Text) where
  -- What one round did: the image is settled, and if it was so before then nothing was queued.
  pub record Round (ref : ImageRef) (db : Db) (ids : List Text) (db' : Db) : Type 0 where
    pub settled : IsSettled repo db' ref
    pub queue : db'.queue_up ≡ db.queue_up
    pub others : Elsewhere lower new_job_id repo ref scanners db db'
    pub quiet :
        wants_scan ref (find_entry repo ref.image db.ledger) ≡ false
        → (ids ≡ []) × (db'.jobs ≡ db.jobs)

  abbrev pub IsRound : ImageRef → Db → Option (List Text × Db) → Type 0
  IsRound ref db none = ⊥
  IsRound ref db (some (ids, db')) = Round ref db ids db'

  found-IsRound :
      (ref : ImageRef) (db : Db) (result : Option (Option ScannedImage × Db))
      → db.queue_up ≡ true
      → IsFound lower new_job_id repo ref scanners db result
      → IsRound ref db (result >>= queue_found lower new_job_id scanners)
  unfolding queue_found
  found-IsRound ref db none up h = h
  found-IsRound ref db (some (none, db')) up h = record {
    settled = h.settled;
    queue = h.queue;
    others = h.others;
    quiet = λ w. (refl, h.jobs);
  }
  found-IsRound ref db (some (some entry, mid)) up ready =
      let one =
        enqueue-QueuesOne lower new_job_id repo ref scanners (text "push") db mid entry ready.found
          ready.key ready.content ready.jobs ready.targets ready.reports ready.others in
      rw
        (enqueue_up lower new_job_id repo ref (text "push") scanners entry scanners mid
          (ready.queue ∙ up))
        (record {
          settled = (one.entry, one.found, ground (arith, one.in_flight));
          queue = ready.queue;
          others = one.others;
          quiet = λ w. ground (arith, ready.wanted, w);
        })

  -- The rows of the start are in the ledger still, and what was not there still is not.
  pub record IsSince (known : List ScannedImage) (ref : ImageRef) (db : Db) : Type 0 where
    pub still :
        (old : ScannedImage)
        → find_entry repo ref.image known ≡ some old
        → (entry : ScannedImage) × (find_entry repo ref.image db.ledger ≡ some entry)
    pub fresh : find_entry repo ref.image known ≡ none → find_entry repo ref.image db.ledger ≡ none

  pub observe_image-IsRound :
      (known : List ScannedImage) (ref : ImageRef) (db : Db)
      → db.queue_up ≡ true
      → IsSince known ref db
      → IsRound ref db (observe_image lower new_job_id repo known scanners ref db)
  unfolding observe_image
  observe_image-IsRound known ref db up since =
      (found-IsRound ref db _ up (elim (Option-cases (find_entry repo ref.image known)) [
        | inl k ↦ observe_new lower new_job_id repo ref scanners known db k (since.fresh k)
        | inr (old, k) ↦
            let (entry, e) = since.still old k in
            observe_known lower new_job_id repo ref scanners known db old entry k e
      ]))

  -- The rest of the list is as before a round on another image.
  pub IsSince-after :
      (known : List ScannedImage) (ref : ImageRef) (images : List ImageRef) (db db' : Db)
      → Elsewhere lower new_job_id repo ref scanners db db'
      → All (λ (other : ImageRef). text_eq ref.image other.image ≡ false) images
      → All (λ (other : ImageRef). IsSince known other db) images
      → All (λ (other : ImageRef). IsSince known other db') images
  IsSince-after known ref [] db db' same ne h = tt
  IsSince-after known ref (other ∷ images) db db' same (n, ne) (s, h) =
      let e = same repo other.image (ground (arith, n)) in
      (
        record {
          still = λ old k. let (entry, f) = s.still old k in (entry, e ∙ f);
          fresh = λ k. e ∙ s.fresh k;
        },
        IsSince-after known ref images db db' same ne h,
      )

  -- The ledger asks for none of the images.
  abbrev pub AsksNothing : Db → List ImageRef → Type 0
  AsksNothing db images =
      All (λ (ref : ImageRef). wants_scan ref (find_entry repo ref.image db.ledger) ≡ false) images

  pub asks_after :
      (ref : ImageRef) (images : List ImageRef) (db db' : Db)
      → Elsewhere lower new_job_id repo ref scanners db db'
      → All (λ (other : ImageRef). text_eq ref.image other.image ≡ false) images
      → AsksNothing db images
      → AsksNothing db' images
  asks_after ref [] db db' same ne h = tt
  asks_after ref (other ∷ images) db db' same (n, ne) (a, h) = (
    ap (wants_scan other) (same repo other.image (ground (arith, n))) ∙ a,
    asks_after ref images db db' same ne h,
  )

  -- What the whole loop did.
  pub record Observed (images : List ImageRef) (db : Db) (ids : List Text) (db' : Db) : Type 0 where
    pub settled : All (IsSettled repo db') images
    pub queue : db'.queue_up ≡ db.queue_up
    pub others :
        (image : Text)
        → All (λ (ref : ImageRef). text_eq ref.image image ≡ false) images
        → find_entry repo image db'.ledger ≡ find_entry repo image db.ledger
    pub quiet : AsksNothing db images → (ids ≡ []) × (db'.jobs ≡ db.jobs)

  abbrev pub IsObserved : List ImageRef → Db → Option (List Text × Db) → Type 0
  IsObserved images db none = ⊥
  IsObserved images db (some (ids, db')) = Observed images db ids db'
