-- ===== src/Scanners/Finished.antt =====
-- Every scanner that is asked for leaves one finished report.
use rotsy.Base.{
  ℕ, ◌≡◌, refl, sym, subst, ap, ◌∙◌, ◌⊎◌, inl, inr, Bool, true, false, Option, none, some, List, [],
  ◌∷◌, ◌++◌, Text, text, text_eq, Dict, if◌then◌else◌, map, length, keep_if, All, keep_if_no,
}
use rotsy.Registries.{DockerRegistry, image_ref}
use rotsy.Scanners.Outcome.{ScanOutcome, ScanReport}
use rotsy.Scanners.Tallied.{apply_outcome_total, closed_report, rows_of}
use rotsy.Scanners.Readiness.{Readiness}
use rotsy.Scanners.Run.{is_static_ref}
use rotsy.Scanners.Persistence.{
  Db, Runner, run_one, Left, add_report, with_report, running_report, columns_take, scan_each,
  scan_image, is_running, reap, reap_stale_reports,
}

abbrev pub IsFinished : ScanReport → Type 0
IsFinished report = (report.status ≡ text "success") ⊎ (report.status ≡ text "failed")

append_assoc : {A : Type 0} (xs ys zs : List A) → (xs ++ ys) ++ zs ≡ xs ++ (ys ++ zs)
append_assoc [] ys zs = refl
append_assoc (x ∷ xs) ys zs = ap (λ t. x ∷ t) (append_assoc xs ys zs)

append_nil : {A : Type 0} (xs : List A) → xs ++ [] ≡ xs
append_nil [] = refl
append_nil (x ∷ xs) = ap (λ t. x ∷ t) (append_nil xs)

-- The scan has left finished reports, one for each name in that order, after those that were there.
abbrev pub IsScanned : {W : Type 0} → List Text → List ScanReport → Left W → Type 0
IsScanned names before none = ⊥
IsScanned names before (some (reports, (db, w))) =
    (map (λ report. report.scanner) reports ≡ names)
    × All IsFinished reports
    × (db.reports ≡ before ++ reports)

add_report-IsScanned :
    {W : Type 0} (names : List Text) (before : List ScanReport) (report : ScanReport)
    (left : Left W)
    → IsFinished report
    → IsScanned names (before ++ (report ∷ [])) left
    → IsScanned (report.scanner ∷ names) before (add_report report left)
add_report-IsScanned names before report none f h = h
add_report-IsScanned names before report (some (reports, (db, w))) f (n, a, e) =
    (ap (λ t. report.scanner ∷ t) n, (f, a), e ∙ append_assoc before (report ∷ []) reports)

closed-IsFinished :
    (ok : Bool)
    → ((if ok then text "success" else text "failed") ≡ text "success")
      ⊎ ((if ok then text "success" else text "failed") ≡ text "failed")
closed-IsFinished true = inl refl
closed-IsFinished false = inr refl

module _ {W : Type 0} (lower upper : Text → Text) (now : ℕ → ℕ) (trivy grype : Runner W)
    (registry : DockerRegistry) (image : Text) where
  -- The outcome of the run, if it is not cancelled, fits the columns of its report and of its rows.
  abbrev pub IsWritable : Text → Db → Option (ScanOutcome × W) → Type 0
  IsWritable name db none = ⊥
  IsWritable name db (some (outcome, after)) =
      let report : ScanReport = running_report lower upper now trivy grype registry image name db in
      let at = now db.next_id in
      columns_take (closed_report upper at report outcome registry.repo)
        (rows_of upper at report outcome registry.repo)
      ≡ true

  -- No run of one of the scanners is cancelled, and what each of them gives fits the columns.
  abbrev pub AreWritable : Dict Text Readiness → List Text → Type 0
  AreWritable ready scanners =
      (db : Db) (w : W)
      → All (λ given. IsWritable (lower given) db (run_one trivy grype ready (lower given) w))
          scanners

  step-IsScanned :
      (ready : Dict Text Readiness) (given : Text) (scanners : List Text) (db : Db) (w : W)
      (ran : Option (ScanOutcome × W))
      → run_one trivy grype ready (lower given) w ≡ ran
      → IsWritable (lower given) db ran
      → ((next : Db) (after : W)
          → IsScanned
              (map lower scanners)
              next.reports
              (scan_each lower upper now trivy grype registry image ready scanners next after))
      → IsScanned
          (map lower (given ∷ scanners))
          db.reports
          (scan_each lower upper now trivy grype registry image ready (given ∷ scanners) db w)
  unfolding scan_each
  step-IsScanned ready given scanners db w none e h rest = absurd h
  step-IsScanned ready given scanners db w (some (outcome, after)) e h rest =
      let name = lower given in
      let report : ScanReport = running_report lower upper now trivy grype registry image name db in
      let at = now db.next_id in
      let closed = closed_report upper at report outcome registry.repo in
      let rows = rows_of upper at report outcome registry.repo in
      let next = with_report closed rows db in
      rw (e, apply_outcome_total upper at report outcome registry.repo, h, scan_each)
        (add_report-IsScanned (map lower scanners) db.reports closed
          (scan_each lower upper now trivy grype registry image ready scanners next after)
          (closed-IsFinished outcome.ok) (rest next after))

  scan_each-IsScanned :
      (ready : Dict Text Readiness) (scanners : List Text) (db : Db) (w : W)
      → AreWritable ready scanners
      → IsScanned
          (map lower scanners)
          db.reports
          (scan_each lower upper now trivy grype registry image ready scanners db w)
  unfolding scan_each
  scan_each-IsScanned ready [] db w h = (refl, tt, sym (append_nil db.reports))
  scan_each-IsScanned ready (given ∷ scanners) db w h =
      let others : AreWritable ready scanners = λ before at. (h before at).1 in
      step-IsScanned ready given scanners db w (run_one trivy grype ready (lower given) w) refl
        (h db w).0 (λ next after. scan_each-IsScanned ready scanners next after others)

  -- Whether its runners return, fail or raise an error, a scan of a reference to a registry leaves one
  -- report for each scanner that is asked for, in order, with its name in lower case; each is a
  -- success or a failure, and the reports that were there stay as they are. This holds where no runner
  -- is cancelled and the columns take the reports and the rows of what the runners find.
  pub scan_image-IsScanned :
      (readiness : List Text → Dict Text Readiness) (scanners : List Text) (db : Db) (w : W)
      → is_static_ref lower (image_ref registry image) ≡ true
      → AreWritable (readiness scanners) scanners
      → IsScanned
          (map lower scanners)
          db.reports
          (scan_image lower upper now trivy grype registry image readiness scanners db w)
  unfolding scan_image
  scan_image-IsScanned readiness scanners db w static fit =
      rw (static, scan_image) (scan_each-IsScanned (readiness scanners) scanners db w fit)

finished-running : (report : ScanReport) → IsFinished report → is_running report ≡ false
finished-running report (inl e) = subst (λ s. text_eq s (text "running") ≡ false) (sym e) refl
finished-running report (inr e) = subst (λ s. text_eq s (text "running") ≡ false) (sym e) refl

reap_idle : (now : ℕ) (report : ScanReport) → is_running report ≡ false → reap now report ≡ report
reap_idle now report e = rw (e, reap) refl

-- Reaping leaves a list of finished reports as it is, and counts none of them.
reap_finished :
    (now : ℕ) (reports : List ScanReport)
    → All IsFinished reports
    → (length (keep_if is_running reports) ≡ 0) × (map (reap now) reports ≡ reports)
reap_finished now [] h = (refl, refl)
reap_finished now (report ∷ reports) (f, h) =
    let idle = finished-running report f in
    let (n, e) = reap_finished now reports h in
    (
      ap length (keep_if_no is_running report reports idle) ∙ n,
      ap (λ t. t ∷ map (reap now) reports) (reap_idle now report idle) ∙ ap (λ t. report ∷ t) e,
    )

All-append : {A : Type 0} (P : A → Type 0) (xs ys : List A) → All P xs → All P ys → All P (xs ++ ys)
All-append P [] ys h k = k
All-append P (x ∷ xs) ys (p, h) k = (p, All-append P xs ys h k)

-- The reaping of what a scan has left counts no report and changes nothing.
abbrev pub NothingToReap : {W : Type 0} → ℕ → Left W → Type 0
NothingToReap at none = ⊥
NothingToReap at (some (reports, (db, w))) = reap_stale_reports at db ≡ (0, db)

scanned-NothingToReap :
    {W : Type 0} (at : ℕ) (names : List Text) (before : List ScanReport) (left : Left W)
    → All IsFinished before
    → IsScanned names before left
    → NothingToReap at left
unfolding reap_stale_reports
scanned-NothingToReap at names before none h k = k
scanned-NothingToReap at names before (some (reports, (db, w))) h (n, a, e) =
    let all : All IsFinished db.reports =
      subst (All IsFinished) (sym e) (All-append IsFinished before reports h a) in
    let (count, same) = reap_finished at db.reports all in
    ap (λ t. (t, record db { reports = map (reap at) db.reports })) count
    ∙ ap (λ t. (0, record db { reports = t })) same

-- A scan that runs to its commit leaves nothing for the reaping at the next start, where the reports
-- before it were finished.
pub reap_stale_reports-scan_image :
    {W : Type 0} (lower upper : Text → Text) (now : ℕ → ℕ) (trivy grype : Runner W)
    (registry : DockerRegistry) (image : Text) (at : ℕ)
    (readiness : List Text → Dict Text Readiness) (scanners : List Text) (db : Db) (w : W)
    → is_static_ref lower (image_ref registry image) ≡ true
    → AreWritable lower upper now trivy grype registry image (readiness scanners) scanners
    → All IsFinished db.reports
    → NothingToReap at
        (scan_image lower upper now trivy grype registry image readiness scanners db w)
reap_stale_reports-scan_image lower upper now trivy grype registry image at readiness scanners db w
      static fit h =
    scanned-NothingToReap at (map lower scanners) db.reports
      (scan_image lower upper now trivy grype registry image readiness scanners db w) h
      (scan_image-IsScanned lower upper now trivy grype registry image readiness scanners db w
        static fit)
