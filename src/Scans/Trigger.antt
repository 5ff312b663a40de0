-- ===== src/Scans/Trigger.antt =====
-- What queues a scan: `adopt_baseline`, `_enqueue_scan`, `ingest_push_event`, `observe_target`,
-- `request_manual_scan` and `record_scan_outcome` of backend/app/modules/nexus/events.py.
-- `lower` is `str.lower`, whose Unicode tables are not restated; `new_job_id n` is the id of the
-- n-th job, a random UUID in the source. A handler that raises is `none`: nothing of it was
-- committed.
pub mod Push
pub mod Ingest
pub mod Adoption
pub mod Observe
pub mod Quiet
use rotsy.Base.{
  ℕ, suc, ◌+◌, Bool, true, false, not, ◌&&◌, ◌||◌, Option, none, some, List, [], ◌∷◌, ◌++◌, map,
  Text, text, text_eq, if◌then◌else◌, keep_if, any, length, strip, split_on,
}
use rotsy.Scans.Ledger.{
  ImageState, baseline, queued, scanned, failed, ScanTarget, ScannedImage, ScanJob, Db, ImageRef,
  is_entry, find_entry, find_target, get_entry, update_entry, update_target, new_entry, add_entry,
}

abbrev pub is_given : Text → Bool
is_given [] = false
is_given (c ∷ s) = true

-- Python's `a or b` on lists.
abbrev pub or_else : List Text → List Text → List Text
or_else [] other = other
or_else (x ∷ xs) other = x ∷ xs

pub data Decline : Type 0 where
  not_a_target auto_scan_off no_baseline already_queued : Decline
  already_known : ImageState → Decline

pub data PushReply : Type 0 where
  declined : Decline → PushReply
  scan_queued : Text → PushReply

-- The entry to scan, or why there is none.
pub data Resolved : Type 0 where
  refused : Decline → Resolved
  entry_to_scan : ScannedImage → Resolved

infixl 5 ◌>>=◌
abbrev pub ◌>>=◌ : {A B : Type 0} → Option A → (A → Option B) → Option B
none >>= f = none
some a >>= f = f a

-- A known tag with other content than the ledger's: both digests given, and different.
abbrev pub is_repush : ImageRef → ScannedImage → Bool
is_repush ref entry =
    is_given ref.digest && is_given entry.digest && not (text_eq ref.digest entry.digest)

abbrev pub repushed : Text → Text → ScannedImage → ScannedImage
repushed digest source entry = record entry { digest = digest; source = source }

-- `session.add` for the images that are not in `known`, the rows at the start.
unfoldable pub adopt_images : Text → List ScannedImage → List ImageRef → Db → Option (ℕ × Db)
adopt_images repo known [] db = some (0, db)
adopt_images repo known (ref ∷ images) db = elim (find_entry repo ref.image known) [
  | some entry ↦ adopt_images repo known images db
  | none ↦ do
    db' ← add_entry repo ref.image ref.digest baseline (text "baseline") db
    (adopted, db'') ← adopt_images repo known images db'
    some (suc adopted, db'')
]

unfoldable pub adopt_baseline : ScanTarget → List ImageRef → ℕ → Db → Option (ℕ × Db)
unfolding adopt_images
adopt_baseline target images now db = do
  (adopted, db') ← adopt_images target.repo db.ledger images db
  let stamp = λ (t : ScanTarget). record t { baseline_at = some now }
  some (adopted, record db' { targets = update_target target.repo stamp db'.targets })

unfoldable pub record_scan_outcome : Option ℕ → Text → Text → Bool → ℕ → Db → Db
record_scan_outcome ledger_id repo image ok now db =
    let by_id : Option ScannedImage = elim ledger_id [
      | none ↦ none
      | some id ↦ get_entry id db.ledger
    ] in
    let found : Option ScannedImage = elim by_id [
      | some entry ↦ some entry
      | none ↦ find_entry repo image db.ledger
    ] in
    let finish = λ (e : ScannedImage). record e {
      state = if ok then scanned else failed;
      last_scan_at = some now;
      scan_count = e.scan_count + 1;
    } in
    elim found [
      | none ↦ db
      | some entry ↦ record db { ledger = update_entry entry.repo entry.image finish db.ledger }
    ]

module _ (lower : Text → Text) (new_job_id : ℕ → Text) where
  -- `[s.strip().lower() for s in names if s.strip()]`
  abbrev pub scanner_names : List Text → List Text
  scanner_names names = map (λ s. lower (strip s)) (keep_if (λ s. is_given (strip s)) names)

  abbrev pub scanners_for : ScanTarget → List Text → List Text
  scanners_for target default = or_else (scanner_names (split_on b',' target.scanners)) default

  abbrev pub scan_job : ScannedImage → List Text → Text → Db → ScanJob
  scan_job entry scanners source db = record {
    job_id = new_job_id (length db.jobs);
    repo = entry.repo;
    image = entry.image;
    scanners = scanners;
    ledger_id = entry.id;
    trigger = source;
  }

  abbrev pub in_flight : Text → ScannedImage → ScannedImage
  in_flight job_id entry = record entry { state = queued; last_job_id = job_id }

  unfoldable pub enqueue_scan : ScannedImage → List Text → Text → Db → Option (Text × Db)
  enqueue_scan entry scanners source db =
      let job = scan_job entry scanners source db in
      if db.queue_up
      then some (
        job.job_id,
        record db {
          jobs = db.jobs ++ job ∷ [];
          ledger = update_entry entry.repo entry.image (in_flight job.job_id) db.ledger;
        },
      )
      else none

  unfoldable pub resolve_ledger_entry : Text → ImageRef → Text → Db → Option (Resolved × Db)
  resolve_ledger_entry repo ref source db = elim (find_entry repo ref.image db.ledger) [
    | none ↦ do
      db' ← add_entry repo ref.image ref.digest queued source db
      some (entry_to_scan (new_entry db.next_id repo ref.image ref.digest queued source), db')
    | some entry ↦ elim entry.state [
      | queued ↦ some (refused already_queued, db)
      | state ↦
          if is_repush ref entry
          then some (
            entry_to_scan (repushed ref.digest source entry),
            record db {
              ledger = update_entry repo ref.image (repushed ref.digest source) db.ledger;
            },
          )
          else some (refused (already_known state), db)
    ]
  ]

  unfoldable pub scan_resolved :
      ScanTarget → List Text → Text → Resolved × Db → Option (PushReply × Db)
  unfolding enqueue_scan
  scan_resolved target default source (refused reason, db) = some (declined reason, db)
  scan_resolved target default source (entry_to_scan entry, db) = do
    (job_id, db') ← enqueue_scan entry (scanners_for target default) source db
    some (scan_queued job_id, db')

  unfoldable pub ingest_push_event :
      Text → ImageRef → Text → List Text → Db → Option (PushReply × Db)
  unfolding resolve_ledger_entry scan_resolved
  ingest_push_event repo ref source default db = elim (find_target repo db.targets) [
    | none ↦ some (declined not_a_target, db)
    | some target ↦
        if not target.enabled
        then some (declined not_a_target, db)
        else if not target.auto_scan
        then some (declined auto_scan_off, db)
        else elim target.baseline_at [
          | none ↦ some (declined no_baseline, db)
          | some at ↦
              resolve_ledger_entry repo ref source db >>= scan_resolved target default source
        ]
  ]

  -- `_entry_to_scan`: `known` holds the rows at the start, which the session shares with the
  -- table, so a known row is read as it stands now.
  unfoldable pub entry_to_observe :
      Text → List ScannedImage → ImageRef → Db → Option (Option ScannedImage × Db)
  entry_to_observe repo known ref db = elim (find_entry repo ref.image known) [
    | none ↦ do
      db' ← add_entry repo ref.image ref.digest queued (text "push") db
      some (some (new_entry db.next_id repo ref.image ref.digest queued (text "push")), db')
    | some _ ↦ elim (find_entry repo ref.image db.ledger) [
      | none ↦ none
      | some entry ↦ elim entry.state [
        | queued ↦ some (none, db)
        | _ ↦
            if is_repush ref entry
            then some (
              some (repushed ref.digest (text "push") entry),
              record db {
                ledger = update_entry repo ref.image (repushed ref.digest (text "push")) db.ledger;
              },
            )
            else if is_given ref.digest && not (is_given entry.digest)
            then some (
              none,
              record db {
                ledger =
                    update_entry repo ref.image (λ e. record e { digest = ref.digest }) db.ledger;
              },
            )
            else some (none, db)
      ]
    ]
  ]

  -- A scan of the entry that was found, if any.
  unfoldable pub queue_found : List Text → Option ScannedImage × Db → Option (List Text × Db)
  unfolding enqueue_scan
  queue_found scanners (none, db) = some ([], db)
  queue_found scanners (some entry, db) = do
    (job_id, db') ← enqueue_scan entry scanners (text "push") db
    some (job_id ∷ [], db')

  -- One turn of the loop.
  unfoldable pub observe_image :
      Text → List ScannedImage → List Text → ImageRef → Db → Option (List Text × Db)
  unfolding entry_to_observe queue_found
  observe_image repo known scanners ref db =
      entry_to_observe repo known ref db >>= queue_found scanners

  unfoldable pub observe_images :
      Text → List ScannedImage → List Text → List ImageRef → Db → Option (List Text × Db)
  unfolding observe_image
  observe_images repo known scanners [] db = some ([], db)
  observe_images repo known scanners (ref ∷ images) db = do
    (ids, db') ← observe_image repo known scanners ref db
    (more, db'') ← observe_images repo known scanners images db'
    some (ids ++ more, db'')

  -- The number of images adopted, and the ids of the jobs queued. `images` is what
  -- `list_repo_images` returned.
  unfoldable pub observe_target :
      ScanTarget → List ImageRef → List Text → ℕ → Db → Option ((ℕ × List Text) × Db)
  unfolding adopt_baseline observe_images
  observe_target target images default now db = elim target.baseline_at [
    | none ↦ do (adopted, db') ← adopt_baseline target images now db; some ((adopted, []), db')
    | some at ↦ do
      (ids, db') ← observe_images target.repo db.ledger (scanners_for target default) images db
      some ((0, ids), db')
  ]

  unfoldable pub request_manual_scan : Text → Text → List Text → List Text → Db → Option (Text × Db)
  unfolding enqueue_scan
  request_manual_scan repo image scanners default db =
      let configured : List Text = elim (find_target repo db.targets) [
        | none ↦ default
        | some target ↦ scanners_for target default
      ] in
      let chosen = or_else (scanner_names scanners) configured in
      let manual = λ (e : ScannedImage). record e { source = text "manual" } in
      elim (find_entry repo image db.ledger) [
        | none ↦ do
          db' ← add_entry repo image [] queued (text "manual") db
          enqueue_scan (new_entry db.next_id repo image [] queued (text "manual")) chosen
              (text "manual") db'
        | some entry ↦
            enqueue_scan (manual entry) chosen (text "manual")
              (record db { ledger = update_entry repo image manual db.ledger })
      ]
