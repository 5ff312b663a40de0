-- ===== src/Scans/Forget.antt =====
-- Removal: `forget_deleted_images` and `forget_repository` of backend/app/modules/nexus/events.py.
use rotsy.Base.{
  ℕ, ◌+◌, ◌≡◌, refl, ap, ◌∙◌, Bool, true, not, ◌&&◌, Option, none, List, [], ◌∷◌, Text, text_eq,
  text_eq_iff, if◌then◌else◌, keep_if, has_text, length, arith,
}
use rotsy.Scans.Ledger.{ScanTarget, ScannedImage, ScanReport, Db, is_entry, find_entry}
use rotsy.Scans.Trigger.{is_given}

abbrev names_entry : Text → List Text → ScannedImage → Bool
names_entry repo names entry = text_eq entry.repo repo && has_text entry.image names

abbrev names_report : Text → List Text → ScanReport → Bool
names_report repo names report = text_eq report.target_repo repo && has_text report.image names

-- `result.rowcount` of a delete: the rows that the condition selects.
-- From `if not names` on.
unfoldable pub forget_names : Text → List Text → Db → ℕ × Db
forget_names repo [] db = (0, db)
forget_names repo (name ∷ names) db =
    let goes = names_entry repo (name ∷ names) in
    (
      length (keep_if goes db.ledger),
      record db {
        ledger = keep_if (λ e. not (goes e)) db.ledger;
        reports = keep_if (λ r. not (names_report repo (name ∷ names) r)) db.reports;
      },
    )

unfoldable pub forget_deleted_images : Text → List Text → Db → ℕ × Db
unfolding forget_names
forget_deleted_images repo images db = forget_names repo (keep_if is_given images) db

unfoldable pub forget_repository : Text → Db → ℕ × Db
forget_repository repo db = (
  length (keep_if (λ (e : ScannedImage). text_eq e.repo repo) db.ledger),
  record db {
    targets = keep_if (λ (t : ScanTarget). not (text_eq t.repo repo)) db.targets;
    ledger = keep_if (λ (e : ScannedImage). not (text_eq e.repo repo)) db.ledger;
    reports = keep_if (λ (r : ScanReport). not (text_eq r.target_repo repo)) db.reports;
  },
)

find-keep_if :
    (repo image : Text) (gone : ScannedImage → Bool) (bad : Bool) (ledger : List ScannedImage)
    → ((e : ScannedImage) → is_entry repo image e ≡ true → gone e ≡ bad)
    → find_entry repo image (keep_if (λ e. not (gone e)) ledger)
      ≡ (if bad then none else find_entry repo image ledger)
unfolding find_entry
find-keep_if repo image gone bad [] h = ground arith
find-keep_if repo image gone bad (e ∷ ledger) h =
    ground (arith, h e, find-keep_if repo image gone bad ledger h)

length-keep_if :
    (gone : ScannedImage → Bool) (ledger : List ScannedImage)
    → length (keep_if gone ledger) + length (keep_if (λ e. not (gone e)) ledger) ≡ length ledger
length-keep_if gone [] = refl
length-keep_if gone (e ∷ ledger) = ground (arith, length-keep_if gone ledger)

names_match :
    (repo repo' image : Text) (names : List Text) (e : ScannedImage)
    → is_entry repo' image e ≡ true
    → names_entry repo names e ≡ (text_eq repo' repo && has_text image names)
names_match repo repo' image names e h =
    let r : e.repo ≡ repo' = (text_eq_iff e.repo repo').0 (ground arith) in
    let i : e.image ≡ image = (text_eq_iff e.image image).0 (ground arith) in cc

has_given :
    (c : ℕ) (image : Text) (images : List Text)
    → has_text (c ∷ image) (keep_if is_given images) ≡ has_text (c ∷ image) images
has_given c image [] = refl
has_given c image ([] ∷ images) = has_given c image images
has_given c image ((d ∷ name) ∷ images) = ground (arith, has_given c image images)

Forgets : Text → List Text → Db → ℕ × Db → Type 0
Forgets repo names db (count, db') =
    (count + length db'.ledger ≡ length db.ledger)
    × ((repo' image : Text)
        → find_entry repo' image db'.ledger ≡ (
            if text_eq repo' repo && has_text image names
            then none
            else find_entry repo' image db.ledger))
    × (db'.targets ≡ db.targets)
    × (db'.jobs ≡ db.jobs)

forget_names-Forgets :
    (repo : Text) (names : List Text) (db : Db) → Forgets repo names db (forget_names repo names db)
unfolding forget_names Forgets
forget_names-Forgets repo [] db = (omega arith, λ repo' image. ground arith, refl, refl)
forget_names-Forgets repo (name ∷ names) db =
    let goes = names_entry repo (name ∷ names) in
    (
      length-keep_if goes db.ledger,
      λ repo' image.
          find-keep_if repo' image goes _ db.ledger
            (λ e h. names_match repo repo' image (name ∷ names) e h),
      refl,
      refl,
    )

-- Forgetting images leaves no ledger row of them in that repository, keeps every other row, and
-- reports how many rows went; targets and jobs stay.
pub forget_deleted_images_lem :
    (repo : Text) (images : List Text) (db : Db)
    → let (count, db') = forget_deleted_images repo images db in
      (count + length db'.ledger ≡ length db.ledger)
      × ((repo' : Text) (c : ℕ) (image : Text)
          → find_entry repo' (c ∷ image) db'.ledger ≡ (
              if text_eq repo' repo && has_text (c ∷ image) images
              then none
              else find_entry repo' (c ∷ image) db.ledger))
      × (db'.targets ≡ db.targets)
      × (db'.jobs ≡ db.jobs)
unfolding forget_deleted_images Forgets
forget_deleted_images_lem repo images db =
    let (count, found, targets, jobs) = forget_names-Forgets repo (keep_if is_given images) db in
    (
      count,
      λ repo' c image.
          found repo' (c ∷ image) ∙ ap (after repo' c image) (has_given c image images),
      targets,
      jobs,
    )
  where
    after : Text → ℕ → Text → Bool → Option ScannedImage
    after repo' c image listed =
        if text_eq repo' repo && listed then none else find_entry repo' (c ∷ image) db.ledger
