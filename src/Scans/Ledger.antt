-- ===== src/Scans/Ledger.antt =====
-- The rows of `ScanTarget`, `ScannedImage` and `ScanReport`, the queue of scan jobs, and the
-- queries on them. A ledger row is found by its unique pair of repository and image; a second row
-- for a pair violates `uq_scan_ledger_repo_image` and raises. What raises before a commit leaves
-- the tables as they were, and is `none` here.
pub mod Queries
use rotsy.Base.{
  ℕ, zero, suc, ◌+◌, ◌≡◌, Bool, true, false, not, ◌&&◌, Option, none, some, List, [], ◌∷◌, ◌++◌,
  Text, text, text_eq, if◌then◌else◌, ◌==◌, keep_if, any, length,
}

pub data ImageState : Type 0 where
  baseline queued scanned failed : ImageState

pub record ScanTarget : Type 0 where
  pub repo : Text
  pub enabled : Bool
  pub auto_scan : Bool
  pub scanners : Text
  pub baseline_at : Option ℕ

pub record ScannedImage : Type 0 where
  pub id : ℕ
  pub repo : Text
  pub image : Text
  pub digest : Text
  pub state : ImageState
  pub source : Text
  pub last_scan_at : Option ℕ
  pub last_job_id : Text
  pub scan_count : ℕ

-- The columns of a report that the ledger's operations read.
pub record ScanReport : Type 0 where
  pub target_repo : Text
  pub image : Text

-- The payload of a `scan_image` job.
pub record ScanJob : Type 0 where
  pub job_id : Text
  pub repo : Text
  pub image : Text
  pub scanners : List Text
  pub ledger_id : ℕ
  pub trigger : Text

pub record Db : Type 0 where
  pub targets : List ScanTarget
  pub ledger : List ScannedImage
  pub reports : List ScanReport
  pub jobs : List ScanJob
  pub next_id : ℕ
  -- whether Redis takes jobs; `JobQueue.enqueue` raises if not
  pub queue_up : Bool

pub record ImageRef : Type 0 where
  pub image : Text
  pub digest : Text

abbrev pub is_entry : Text → Text → ScannedImage → Bool
is_entry repo image entry = text_eq entry.repo repo && text_eq entry.image image

-- `_ledger_entry`
unfoldable pub find_entry : Text → Text → List ScannedImage → Option ScannedImage
find_entry repo image [] = none
find_entry repo image (entry ∷ ledger) =
    if is_entry repo image entry then some entry else find_entry repo image ledger

unfoldable pub find_target : Text → List ScanTarget → Option ScanTarget
find_target repo [] = none
find_target repo (target ∷ targets) =
    if text_eq target.repo repo then some target else find_target repo targets

-- `session.get(ScannedImage, id)`
unfoldable pub get_entry : ℕ → List ScannedImage → Option ScannedImage
get_entry id [] = none
get_entry id (entry ∷ ledger) = if entry.id == id then some entry else get_entry id ledger

-- Assignments to the attributes of a loaded row.
unfoldable pub update_entry :
    Text → Text → (ScannedImage → ScannedImage) → List ScannedImage → List ScannedImage
update_entry repo image change [] = []
update_entry repo image change (entry ∷ ledger) =
    if is_entry repo image entry
    then change entry ∷ ledger
    else entry ∷ update_entry repo image change ledger

unfoldable pub update_target : Text → (ScanTarget → ScanTarget) → List ScanTarget → List ScanTarget
update_target repo change [] = []
update_target repo change (target ∷ targets) =
    if text_eq target.repo repo
    then change target ∷ targets
    else target ∷ update_target repo change targets

-- A row as the constructor call leaves it, with the column defaults.
abbrev pub new_entry : ℕ → Text → Text → Text → ImageState → Text → ScannedImage
new_entry id repo image digest state source = record {
  id = id;
  repo = repo;
  image = image;
  digest = digest;
  state = state;
  source = source;
  last_scan_at = none;
  last_job_id = [];
  scan_count = 0;
}

-- `session.add(ScannedImage(...))` and the flush of it.
unfoldable pub add_entry : Text → Text → Text → ImageState → Text → Db → Option Db
add_entry repo image digest state source db = elim (find_entry repo image db.ledger) [
  | some entry ↦ none
  | none ↦ some (record db {
    ledger = db.ledger ++ new_entry db.next_id repo image digest state source ∷ [];
    next_id = suc db.next_id;
  })
]
