-- ===== src/Scans/Tests.antt =====
-- Runs of the scan ledger, and each theorem about it on concrete tables.
use rotsy.Base.{ℕ, ◌≡◌, refl, Option, none, some, true, List, [], ◌∷◌, Text, text, All}
use rotsy.Scans.Ledger.{baseline, ScanTarget, ScannedImage, Db, ImageRef}
use rotsy.Scans.Trigger.{PushReply, ingest_push_event, observe_target}
use rotsy.Scans.Trigger.Adoption.{AreDistinct}
use rotsy.Scans.Trigger.Quiet.{IsSettled}
use rotsy.Scans.Trigger.Quiet.Twice.{observe_target_twice}
use rotsy.Scans.Webhook.{Component}

abbrev same : Text → Text
same t = t

abbrev job_name : ℕ → Text
job_name n = n ∷ []

abbrev team : Text
team = text "team"

abbrev target : Option ℕ → ScanTarget
target at = record {
  repo = team;
  enabled = true;
  auto_scan = true;
  scanners = text "trivy";
  baseline_at = at;
}

abbrev old_image : ScannedImage
old_image = record {
  id = 1;
  repo = team;
  image = text "app:1";
  digest = text "d1";
  state = baseline;
  source = text "baseline";
  last_scan_at = none;
  last_job_id = [];
  scan_count = 0;
}

-- One image is history; the repository has a baseline or not.
abbrev tables : Option ℕ → Db
tables at = record {
  targets = target at ∷ [];
  ledger = old_image ∷ [];
  reports = [];
  jobs = [];
  next_id = 2;
  queue_up = true;
}

abbrev new_image : ImageRef
new_image = record { image = text "app:2"; digest = text "d2" }

abbrev known_image : ImageRef
known_image = record { image = text "app:1"; digest = text "d1" }

abbrev seen : Db
seen = tables (some 5)

abbrev push : ImageRef → Db → Option (PushReply × Db)
push ref db = ingest_push_event same job_name team ref (text "push") (text "grype" ∷ []) db

known_new-AreDistinct : AreDistinct (known_image ∷ new_image ∷ [])
known_new-AreDistinct = ((refl, tt), (tt, tt))

observe_target_twice_example :
    (ids : List Text) × (first second : Db) × (observe_target same job_name
        (target (some 5))
        (known_image ∷ new_image ∷ [])
        []
        9
        seen
      ≡ some ((0, ids), first))
    × All (IsSettled team first) (known_image ∷ new_image ∷ [])
    × (observe_target same job_name (target (some 5)) (known_image ∷ new_image ∷ []) [] 19 first
        ≡ some ((0, []), second))
    × (second.jobs ≡ first.jobs)
observe_target_twice_example =
    observe_target_twice same job_name (target (some 5)) (known_image ∷ new_image ∷ []) [] 5 9 19
      seen refl refl known_new-AreDistinct

abbrev docker_image : Component
docker_image = record {
  format = some (text "docker");
  name = some (text "app");
  version = some (text "1");
  assets = [];
}
