-- ===== src/Scans/Trigger/Ingest.antt =====
-- The whole of `ingest_push_event`: exactly when a push queues a scan, and that a repeated event
-- does not queue another.
use rotsy.Base.{
  ℕ, ◌≡◌, refl, sym, ap, ◌∙◌, inl, inr, Bool, true, false, not, ◌&&◌, Option, none, some, List, [],
  ◌∷◌, ◌++◌, Text, if◌then◌else◌, arith, Bool-cases, Option-cases, subst,
}
use rotsy.Scans.Ledger.{
  ScanTarget, ScannedImage, Db, ImageRef, find_entry, find_target, update_entry,
}
use rotsy.Scans.Trigger.{
  Decline, not_a_target, auto_scan_off, no_baseline, PushReply, scan_job, in_flight, declined,
  scan_queued, Resolved, refused, entry_to_scan, scanners_for, enqueue_scan, resolve_ledger_entry,
  scan_resolved, ingest_push_event, ◌>>=◌,
}
use rotsy.Scans.Trigger.Push.{
  wants_scan, is_eligible, QueuesOne, enqueue-QueuesOne, IsResolved, resolve-IsResolved,
}

-- A push is scanned when its repository is an enabled target with automatic scans and a baseline,
-- and the ledger asks for the image.
abbrev pub should_scan : Text → ImageRef → Db → Bool
should_scan repo ref db =
    is_eligible (find_target repo db.targets)
    && wants_scan ref (find_entry repo ref.image db.ledger)

-- What came of a push, by how it was answered; it never raises.
abbrev pub IsIngested : Text → ImageRef → Db → Option (PushReply × Db) → Type 0
IsIngested repo ref db none = ⊥
IsIngested repo ref db (some (declined why, db')) = (should_scan repo ref db ≡ false) × (db' ≡ db)
IsIngested repo ref db (some (scan_queued job_id, db')) =
    (should_scan repo ref db ≡ true) × QueuesOne repo ref.image ref.digest job_id db db'

module _ (lower : Text → Text) (new_job_id : ℕ → Text) (repo : Text) (ref : ImageRef)
    (source : Text) (default : List Text) where
  pub enqueue_up :
      (entry : ScannedImage) (scanners : List Text) (mid : Db)
      → mid.queue_up ≡ true
      → let job = scan_job lower new_job_id entry scanners source mid in
        enqueue_scan lower new_job_id entry scanners source mid
        ≡ some (
          job.job_id,
          record mid {
            jobs = mid.jobs ++ job ∷ [];
            ledger =
                update_entry entry.repo entry.image
                  (in_flight lower new_job_id job.job_id)
                  mid.ledger;
          },
        )
  unfolding enqueue_scan
  enqueue_up entry scanners mid up = ground (arith, up)

  scan_resolved-IsIngested :
      (target : ScanTarget) (db : Db) (result : Option (Resolved × Db))
      → db.queue_up ≡ true
      → is_eligible (find_target repo db.targets) ≡ true
      → IsResolved lower new_job_id repo ref
          (scanners_for lower new_job_id target default)
          source
          db
          result
      → IsIngested repo ref db (result >>= scan_resolved lower new_job_id target default source)
  unfolding scan_resolved
  scan_resolved-IsIngested target db none up el h = h
  scan_resolved-IsIngested target db (some (refused why, mid)) up el (w, same) =
      (ground arith, same)
  scan_resolved-IsIngested target db (some (entry_to_scan entry, mid)) up el ready =
      let scanners = scanners_for lower new_job_id target default in
      let one =
        enqueue-QueuesOne lower new_job_id repo ref scanners source db mid entry ready.found
          ready.key ready.content ready.jobs ready.targets ready.reports ready.others in
      rw (enqueue_up entry scanners mid (ready.queue ∙ up)) (ground (arith, ready.wanted), one)

  why_not : Option ScanTarget → Decline
  why_not none = not_a_target
  why_not (some target) =
      if not target.enabled
      then not_a_target
      else if not target.auto_scan
      then auto_scan_off
      else no_baseline

  ineligible :
      (db : Db)
      → is_eligible (find_target repo db.targets) ≡ false
      → ingest_push_event lower new_job_id repo ref source default db
        ≡ some (declined (why_not (find_target repo db.targets)), db)
  unfolding ingest_push_event why_not
  ineligible db h = ground (arith, h)

  eligible :
      (db : Db) (target : ScanTarget)
      → find_target repo db.targets ≡ some target
      → is_eligible (some target) ≡ true
      → ingest_push_event lower new_job_id repo ref source default db ≡ (
          resolve_ledger_entry lower new_job_id repo ref source db
          >>= scan_resolved lower new_job_id target default source)
  unfolding ingest_push_event
  eligible db target e h = rw (e, ingest_push_event) (ground arith)

  pub ingest_push_event-IsIngested :
      (db : Db)
      → db.queue_up ≡ true
      → IsIngested repo ref db (ingest_push_event lower new_job_id repo ref source default db)
  ingest_push_event-IsIngested db up =
      elim (Bool-cases (is_eligible (find_target repo db.targets))) [
        | inr no_scan ↦ rw (ineligible db no_scan) (ground (arith, no_scan), refl)
        | inl el ↦ elim (Option-cases (find_target repo db.targets)) [
          | inl e ↦ ground (arith, e, el)
          | inr (target, e) ↦
              let scanners = scanners_for lower new_job_id target default in
              rw (eligible db target e (sym (ap is_eligible e) ∙ el)) (
                scan_resolved-IsIngested target db
                  (resolve_ledger_entry lower new_job_id repo ref source db) up el
                  (resolve-IsResolved lower new_job_id repo ref scanners source db))
        ]
      ]

  -- Once a push was handled, the ledger asks for nothing more.
  settled :
      (db db' : Db) (reply : PushReply)
      → IsIngested repo ref db (some (reply, db'))
      → should_scan repo ref db' ≡ false
  settled db db' (declined why) (no_scan, same) = rw same no_scan
  settled db db' (scan_queued job_id) (_, one) = ground (arith, one.found, one.in_flight)

  declined_of_settled :
      (db : Db) (result : Option (PushReply × Db))
      → should_scan repo ref db ≡ false
      → IsIngested repo ref db result
      → (why : Decline) × (result ≡ some (declined why, db))
  declined_of_settled db none no_scan h = absurd h
  declined_of_settled db (some (declined why, db')) no_scan (_, same) =
      (why, ap (λ d. some (declined why, d)) same)
  declined_of_settled db (some (scan_queued job_id, db')) no_scan (scan, _) = cc

  -- The same event once more, after it was handled, is declined and changes nothing.
  pub ingest_push_event_twice :
      (db db' : Db) (reply : PushReply)
      → db.queue_up ≡ true
      → db'.queue_up ≡ true
      → ingest_push_event lower new_job_id repo ref source default db ≡ some (reply, db')
      → (why : Decline) × (ingest_push_event lower new_job_id repo ref source default db'
          ≡ some (declined why, db'))
  ingest_push_event_twice db db' reply up up' h =
      let first = subst (IsIngested repo ref db) h (ingest_push_event-IsIngested db up) in
      declined_of_settled db' _ (settled db db' reply first) (ingest_push_event-IsIngested db' up')
