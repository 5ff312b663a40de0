-- ===== src/Scans/Trigger/Push.antt =====
-- `ingest_push_event`: when a push queues a scan, and that it does so once.
use rotsy.Base.{
  ℕ, suc, ◌≡◌, refl, ap, ◌∙◌, inl, inr, Bool, true, false, ◌&&◌, Option, none, some, List, [], ◌∷◌,
  ◌++◌, Text, text_eq, text_eq_iff, text_eq_refl, arith, Bool-cases, Option-cases, length,
}
use rotsy.Scans.Ledger.{
  queued, ScanTarget, ScannedImage, ScanJob, Db, ImageRef, is_entry, find_entry, update_entry,
  new_entry, add_entry,
}
use rotsy.Scans.Ledger.Queries.{
  KeepsKey, changed, find-update_self, find-update_ne, find-append, find_entry-key, find_head,
}
use rotsy.Scans.Trigger.{
  Decline, already_queued, already_known, Resolved, refused, entry_to_scan, is_repush, repushed,
  in_flight, scan_job, resolve_ledger_entry,
}

-- The ledger asks for a scan of an unknown image, and of a known one with other content, unless a
-- scan of it is in flight.
abbrev pub wants_scan : ImageRef → Option ScannedImage → Bool
wants_scan ref none = true
wants_scan ref (some entry) = elim entry.state [ queued ↦ false | _ ↦ is_repush ref entry ]

abbrev pub is_observed : Option ℕ → Bool
is_observed none = false
is_observed (some at) = true

abbrev pub is_eligible : Option ScanTarget → Bool
is_eligible none = false
is_eligible (some target) = target.enabled && target.auto_scan && is_observed target.baseline_at

-- From one state of the tables to another, exactly one job was queued, for this image, and its
-- entry is in flight with that job; no other entry changed, nor any target or report.
pub record QueuesOne (repo image digest job_id : Text) (db db' : Db) : Type 0 where
  pub entry : ScannedImage
  pub found : find_entry repo image db'.ledger ≡ some entry
  pub in_flight : entry.state ≡ queued
  pub by_job : entry.last_job_id ≡ job_id
  pub content : entry.digest ≡ digest
  pub job : ScanJob
  pub queued : db'.jobs ≡ db.jobs ++ job ∷ []
  pub for_job : job.job_id ≡ job_id
  pub for_repo : job.repo ≡ repo
  pub for_image : job.image ≡ image
  pub for_entry : job.ledger_id ≡ entry.id
  pub others :
      (repo' image' : Text)
      → (text_eq repo repo' && text_eq image image') ≡ false
      → find_entry repo' image' db'.ledger ≡ find_entry repo' image' db.ledger
  pub targets : db'.targets ≡ db.targets
  pub reports : db'.reports ≡ db.reports

module _ (lower : Text → Text) (new_job_id : ℕ → Text) (repo : Text) (ref : ImageRef)
    (scanners : List Text) (source : Text) where
  -- Queueing a scan of an entry that stands in the ledger.
  pub enqueue-QueuesOne :
      (db mid : Db) (entry : ScannedImage)
      → find_entry repo ref.image mid.ledger ≡ some entry
      → (entry.repo ≡ repo) × (entry.image ≡ ref.image)
      → entry.digest ≡ ref.digest
      → mid.jobs ≡ db.jobs
      → mid.targets ≡ db.targets
      → mid.reports ≡ db.reports
      → ((repo' image' : Text)
          → (text_eq repo repo' && text_eq ref.image image') ≡ false
          → find_entry repo' image' mid.ledger ≡ find_entry repo' image' db.ledger)
      → QueuesOne repo ref.image ref.digest (new_job_id (length mid.jobs)) db (record mid {
        jobs = mid.jobs ++ scan_job lower new_job_id entry scanners source mid ∷ [];
        ledger =
            update_entry entry.repo entry.image
              (in_flight lower new_job_id (new_job_id (length mid.jobs)))
              mid.ledger;
      })
  enqueue-QueuesOne db mid entry e (r, i) content jobs targets reports others =
      let id = new_job_id (length mid.jobs) in
      let flight = in_flight lower new_job_id id in
      let ledger = λ (a b : Text). update_entry a b flight mid.ledger in
      let keys : KeepsKey flight = λ (x : ScannedImage). (refl, refl) in
      let at : ledger entry.repo entry.image ≡ ledger repo ref.image =
        ap (λ a. ledger a entry.image) r ∙ ap (ledger repo) i in
      record {
        entry = flight entry;
        found =
            ap (find_entry repo ref.image) at
            ∙ (find-update_self repo ref.image flight mid.ledger keys
                ∙ ap (λ o. changed o flight) e);
        in_flight = refl;
        by_job = refl;
        content = content;
        job = scan_job lower new_job_id entry scanners source mid;
        queued = ap (λ js. js ++ scan_job lower new_job_id entry scanners source mid ∷ []) jobs;
        for_job = refl;
        for_repo = r;
        for_image = i;
        for_entry = refl;
        others = λ repo' image' n.
            ap (find_entry repo' image') at
            ∙ (find-update_ne repo ref.image repo' image' flight mid.ledger keys n
                ∙ others repo' image' n);
        targets = targets;
        reports = reports;
      }

  abbrev pub SameElsewhere : Db → Db → Type 0
  SameElsewhere db mid =
      (repo' image' : Text)
      → (text_eq repo repo' && text_eq ref.image image') ≡ false
      → find_entry repo' image' mid.ledger ≡ find_entry repo' image' db.ledger

  pub record IsReady (db : Db) (entry : ScannedImage) (mid : Db) : Type 0 where
    pub wanted : wants_scan ref (find_entry repo ref.image db.ledger) ≡ true
    pub found : find_entry repo ref.image mid.ledger ≡ some entry
    pub key : (entry.repo ≡ repo) × (entry.image ≡ ref.image)
    pub content : entry.digest ≡ ref.digest
    pub jobs : mid.jobs ≡ db.jobs
    pub targets : mid.targets ≡ db.targets
    pub reports : mid.reports ≡ db.reports
    pub queue : mid.queue_up ≡ db.queue_up
    pub others : SameElsewhere db mid

  abbrev pub IsResolved : Db → Option (Resolved × Db) → Type 0
  IsResolved db none = ⊥
  IsResolved db (some (refused why, db')) =
      (wants_scan ref (find_entry repo ref.image db.ledger) ≡ false) × (db' ≡ db)
  IsResolved db (some (entry_to_scan entry, mid)) = IsReady db entry mid

  pub add-others :
      (db : Db) (entry : ScannedImage)
      → is_entry repo ref.image entry ≡ true
      → (repo' image' : Text) → (text_eq repo repo' && text_eq ref.image image') ≡ false
      → find_entry repo' image' (db.ledger ++ entry ∷ []) ≡ find_entry repo' image' db.ledger
  unfolding find_entry
  add-others db entry m repo' image' n = ground (
    arith,
    find-append repo' image' db.ledger (entry ∷ []),
    text_eq_iff entry.repo repo,
    text_eq_iff entry.image ref.image,
    text_eq_iff entry.repo repo',
    text_eq_iff entry.image image',
    text_eq_iff repo repo',
    text_eq_iff ref.image image',
  )

  abbrev added : Db → Db
  added db = record db {
    ledger = db.ledger ++ new_entry db.next_id repo ref.image ref.digest queued source ∷ [];
    next_id = suc db.next_id;
  }

  resolve_new_eq :
      (db : Db)
      → find_entry repo ref.image db.ledger ≡ none
      → resolve_ledger_entry lower new_job_id repo ref source db
        ≡ some
            (entry_to_scan (new_entry db.next_id repo ref.image ref.digest queued source), added db)
  unfolding resolve_ledger_entry add_entry
  resolve_new_eq db e = ground (arith, e)

  resolve_new :
      (db : Db)
      → find_entry repo ref.image db.ledger ≡ none
      → IsResolved db (resolve_ledger_entry lower new_job_id repo ref source db)
  resolve_new db e =
      let entry = new_entry db.next_id repo ref.image ref.digest queued source in
      let same : is_entry repo ref.image entry ≡ true =
        ground (arith, text_eq_refl repo, text_eq_refl ref.image) in
      rw (resolve_new_eq db e) (record {
        wanted = rw e;
        found =
            rw (find-append repo ref.image db.ledger (entry ∷ []), e)
              (find_head repo ref.image entry same);
        key = (refl, refl);
        content = refl;
        jobs = refl;
        targets = refl;
        reports = refl;
        queue = refl;
        others = add-others db entry same;
      })

  abbrev refreshed : ScannedImage → Db → Db
  refreshed entry db = record db {
    ledger = update_entry repo ref.image (repushed ref.digest source) db.ledger;
  }

  abbrev reason : ScannedImage → Decline
  reason entry = elim entry.state [ queued ↦ already_queued | state ↦ already_known state ]

  resolve_repush_eq :
      (db : Db) (entry : ScannedImage)
      → find_entry repo ref.image db.ledger ≡ some entry
      → wants_scan ref (some entry) ≡ true
      → resolve_ledger_entry lower new_job_id repo ref source db
        ≡ some (entry_to_scan (repushed ref.digest source entry), refreshed entry db)
  unfolding resolve_ledger_entry
  resolve_repush_eq db entry e w = rw (e, resolve_ledger_entry) (ground arith)

  resolve_same_eq :
      (db : Db) (entry : ScannedImage)
      → find_entry repo ref.image db.ledger ≡ some entry
      → wants_scan ref (some entry) ≡ false
      → resolve_ledger_entry lower new_job_id repo ref source db ≡ some (refused (reason entry), db)
  unfolding resolve_ledger_entry
  resolve_same_eq db entry e w = rw (e, resolve_ledger_entry) (ground arith)

  resolve_known :
      (db : Db) (entry : ScannedImage)
      → find_entry repo ref.image db.ledger ≡ some entry
      → IsResolved db (resolve_ledger_entry lower new_job_id repo ref source db)
  resolve_known db entry e = elim (Bool-cases (wants_scan ref (some entry))) [
    | inr w ↦ rw (resolve_same_eq db entry e w) (ap (wants_scan ref) e ∙ w, refl)
    | inl w ↦
        let change = repushed ref.digest source in
        let keys : KeepsKey change = λ (x : ScannedImage). (refl, refl) in
        rw (resolve_repush_eq db entry e w) (record {
          wanted = ap (wants_scan ref) e ∙ w;
          found =
              find-update_self repo ref.image change db.ledger keys ∙ ap (λ o. changed o change) e;
          key = find_entry-key repo ref.image db.ledger entry e;
          content = refl;
          jobs = refl;
          targets = refl;
          reports = refl;
          queue = refl;
          others =
              λ repo' image' n. find-update_ne repo ref.image repo' image' change db.ledger keys n;
        })
  ]

  pub resolve-IsResolved :
      (db : Db) → IsResolved db (resolve_ledger_entry lower new_job_id repo ref source db)
  resolve-IsResolved db = elim (Option-cases (find_entry repo ref.image db.ledger)) [
    | inl e ↦ resolve_new db e
    | inr (entry, e) ↦ resolve_known db entry e
  ]
