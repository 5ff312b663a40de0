-- ===== src/Scanners/Persistence.antt =====
-- The scan of one image and its reports: `_run_one`, `scan_image` and `reap_stale_reports` of
-- persistence.py. A runner of `_RUNNERS` is given with its arguments, over a state of its own: it
-- returns an outcome, raises, or is cancelled. The time of a report is given by its id. A scan that raises before its
-- commit, is cancelled, or has a value that its column does not take writes nothing and is `none`.
use rotsy.Base.{
  ℕ, suc, Bool, false, not, Option, none, some, List, [], ◌∷◌, ◌++◌, Text, text, text_eq, Dict,
  lookup, text_key, if◌then◌else◌, map, length, keep_if, all, leb, ltb, ◌&&◌,
}
use rotsy.Registries.{DockerRegistry, image_ref}
use rotsy.Scanners.Outcome.{ScanOutcome, ScanReport, Vulnerability, failed_outcome, apply_outcome}
use rotsy.Scanners.Readiness.{Readiness}
use rotsy.Scanners.Run.{Ran, returned, raised, stopped, is_static_ref}

-- The tables of reports and vulnerabilities, and the next id of a report.
pub record Db : Type 0 where
  pub reports : List ScanReport
  pub vulnerabilities : List Vulnerability
  pub next_id : ℕ

-- A report as the constructor call leaves it, with the column defaults.
abbrev pub new_report : ℕ → Text → Text → Text → Text → ScanReport
new_report id repo image scanner reference = record {
  id = id;
  target_repo = repo;
  image = image;
  scanner = scanner;
  status = text "running";
  registry_ref = reference;
  finished_at = none;
  duration_ms = 0;
  critical = 0;
  high = 0;
  medium = 0;
  low = 0;
  unknown = 0;
  error = none;
  raw_json = none;
}

-- A runner with its arguments, over a state `W`.
abbrev pub Runner : Type 0 → Type 0
Runner W = W → Ran ScanOutcome × W

-- `_RUNNERS.get(name)`
abbrev pub runner_of : {W : Type 0} → Runner W → Runner W → Text → Option (Runner W)
runner_of trivy grype name =
    if text_eq name (text "trivy")
    then some trivy
    else if text_eq name (text "grype")
    then some grype
    else none

abbrev pub unknown_scanner : Text → Text
unknown_scanner name = text "unknown scanner '" ++ (name ++ text "' (expected trivy or grype)")

-- The outcome of a coroutine; one that raises is a failure with the exception as its error, and a
-- cancellation goes on: `none`.
abbrev pub caught : {W : Type 0} → Text → Ran ScanOutcome × W → Option (ScanOutcome × W)
caught name (returned outcome, w) = some (outcome, w)
caught name (raised why, w) = some (failed_outcome name why [] 0, w)
caught name (stopped, w) = none

abbrev pub is_unready : Option Readiness → Bool
is_unready none = false
is_unready (some check) = not check.ready

abbrev pub reason_of : Option Readiness → Text
reason_of none = []
reason_of (some check) = check.reason

module _ {W : Type 0} (trivy grype : Runner W) where
  abbrev run_known : Text → W → Option (Runner W) → Option (ScanOutcome × W)
  run_known name w none = some (failed_outcome name (unknown_scanner name) [] 0, w)
  run_known name w (some runner) = caught name (runner w)

  unfoldable pub run_one : Dict Text Readiness → Text → W → Option (ScanOutcome × W)
  run_one ready name w =
      let check = lookup name ready in
      if is_unready check
      then some (failed_outcome name (reason_of check) [] 0, w)
      else run_known name w (runner_of trivy grype name)

-- What is left of a scan: its reports, the tables and the state of the runners.
abbrev pub Left : Type 0 → Type 0
Left W = Option (List ScanReport × (Db × W))

abbrev pub add_report : {W : Type 0} → ScanReport → Left W → Left W
add_report report none = none
add_report report (some (reports, left)) = some (report ∷ reports, left)

-- `String(n)` and `Integer` of the models.
abbrev fits : ℕ → Text → Bool
fits width t = leb (length t) width

abbrev fits_integer : ℕ → Bool
fits_integer n = ltb n 2147483648

abbrev row_fits : Vulnerability → Bool
row_fits row =
    fits 255 row.repo
    && (fits 32 row.scanner
        && (fits 64 row.cve
            && (fits 16 row.severity
                && (fits 255 row.package_name
                    && (fits 128 row.installed_version
                        && (fits 128 row.fixed_version && fits 512 row.title))))))

-- Whether the columns take a report that is closed and its rows.
unfoldable pub columns_take : ScanReport → List Vulnerability → Bool
columns_take report rows =
    fits 255 report.target_repo
    && (fits 512 report.image
        && (fits 32 report.scanner
            && (fits 16 report.status
                && (fits 512 report.registry_ref
                    && (fits_integer report.duration_ms
                        && (fits_integer (length rows) && all row_fits rows))))))

-- The tables with a report that is closed and its rows.
abbrev pub with_report : ScanReport → List Vulnerability → Db → Db
with_report report rows db = record {
  reports = db.reports ++ (report ∷ []);
  vulnerabilities = db.vulnerabilities ++ rows;
  next_id = suc db.next_id;
}

module _ {W : Type 0} (lower upper : Text → Text) (now : ℕ → ℕ) (trivy grype : Runner W)
    (registry : DockerRegistry) (image : Text) where
  abbrev pub running_report : Text → Db → ScanReport
  running_report name db = new_report db.next_id registry.repo image name (image_ref registry image)

  -- The loop over the scanners.
  unfoldable pub scan_each : Dict Text Readiness → List Text → Db → W → Left W
  scan_each ready [] db w = some ([], (db, w))
  scan_each ready (given ∷ scanners) db w =
      let name = lower given in
      let report : ScanReport = running_report name db in
      elim (run_one trivy grype ready name w) [
        | none ↦ none
        | some (outcome, after) ↦
            elim (apply_outcome upper (now db.next_id) report outcome registry.repo) [
              | none ↦ none
              | some (closed, rows) ↦
                  let rest = scan_each ready scanners (with_report closed rows db) after in
                  if columns_take closed rows then add_report closed rest else none
            ]
      ]

  unfoldable pub scan_image : (List Text → Dict Text Readiness) → List Text → Db → W → Left W
  scan_image readiness scanners db w =
      if is_static_ref lower (image_ref registry image)
      then scan_each (readiness scanners) scanners db w
      else none

abbrev pub interrupted : Text
interrupted =
    text "Interrupted: the backend restarted while this scan was running. "
    ++ text "Scan the image again to retry."

abbrev pub is_running : ScanReport → Bool
is_running report = text_eq report.status (text "running")

abbrev pub reap : ℕ → ScanReport → ScanReport
reap now report =
    if is_running report
    then record report { status = text "failed"; error = some interrupted; finished_at = some now }
    else report

-- `reap_stale_reports`: the number of rows that the statement changes, and the tables.
unfoldable pub reap_stale_reports : ℕ → Db → ℕ × Db
reap_stale_reports now db =
    (length (keep_if is_running db.reports), record db { reports = map (reap now) db.reports })
