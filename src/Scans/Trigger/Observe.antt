-- ===== src/Scans/Trigger/Observe.antt =====
-- `observe_target` on a repository without a baseline: its images become history, and none of them
-- is scanned.
use rotsy.Base.{ℕ, ◌≡◌, refl, ap, ◌∙◌, Option, none, some, List, [], ◌∷◌, Text, All, arith}
use rotsy.Scans.Ledger.{
  ScanTarget, ScannedImage, Db, ImageRef, find_entry, find_target, update_target,
}
use rotsy.Scans.Trigger.{adopt_images, adopt_baseline, observe_target, ◌>>=◌}
use rotsy.Scans.Trigger.Adoption.{
  AreDistinct, AddsHistory, IsAdopted, IsSince, adopt_images-IsAdopted,
}

update_target_self :
    (repo : Text) (change : ScanTarget → ScanTarget) (targets : List ScanTarget)
    (target : ScanTarget)
    → ((t : ScanTarget) → (change t).repo ≡ t.repo)
    → find_target repo targets ≡ some target
    → find_target repo (update_target repo change targets) ≡ some (change target)
unfolding find_target update_target
update_target_self repo change [] target keeps h = cc
update_target_self repo change (t ∷ targets) target keeps h =
    ground (arith, keeps t, update_target_self repo change targets target keeps)

-- What the first observation of a repository does: it queues nothing, lists every image, leaves
-- every row that was there and adds only history, and stamps the target.
abbrev pub IsBaselined :
    ScanTarget → List ImageRef → ℕ → Db → Option ((ℕ × List Text) × Db) → Type 0
IsBaselined target images now db none = ⊥
IsBaselined target images now db (some ((adopted, ids), db')) =
    (ids ≡ [])
    × AddsHistory db db'
    × All
        (λ (ref : ImageRef).
          (entry : ScannedImage) × (find_entry target.repo ref.image db'.ledger ≡ some entry))
        images
    × (find_target target.repo db'.targets ≡ some (record target { baseline_at = some now }))

adopt_baseline-IsBaselined :
    (target : ScanTarget) (images : List ImageRef) (now : ℕ) (db : Db) (result : Option (ℕ × Db))
    → find_target target.repo db.targets ≡ some target
    → IsAdopted target.repo images db result
    → IsBaselined target images now db (
        result >>= λ (adopted, db'). some (
          (adopted, []),
          record db' {
            targets =
                update_target target.repo (λ t. record t { baseline_at = some now }) db'.targets;
          },
        ))
adopt_baseline-IsBaselined target images now db none known h = h
adopt_baseline-IsBaselined target images now db (some (n, db')) known h =
    let stamp = λ (t : ScanTarget). record t { baseline_at = some now } in
    (
      refl,
      record {
        jobs = h.adds.jobs;
        reports = h.adds.reports;
        kept = h.adds.kept;
        history = h.adds.history;
      },
      h.listed,
      ap (λ ts. find_target target.repo (update_target target.repo stamp ts)) h.targets
          ∙ update_target_self target.repo stamp db.targets target (λ t. refl) known,
    )

unseen_fresh :
    (repo : Text) (ledger : List ScannedImage) (images : List ImageRef)
    → All
        (λ (ref : ImageRef).
          find_entry repo ref.image ledger ≡ none → find_entry repo ref.image ledger ≡ none)
        images
unseen_fresh repo ledger [] = tt
unseen_fresh repo ledger (ref ∷ images) = ((λ e. e), unseen_fresh repo ledger images)

-- The branch of `observe_target` that is taken before a baseline.
observe_unseen :
    (lower : Text → Text) (new_job_id : ℕ → Text) (target : ScanTarget) (images : List ImageRef)
    (default : List Text) (now : ℕ) (db : Db)
    → target.baseline_at ≡ none
    → observe_target lower new_job_id target images default now db ≡ (
        adopt_images target.repo db.ledger images db >>= λ (adopted, db'). some (
          (adopted, []),
          record db' {
            targets =
                update_target target.repo (λ t. record t { baseline_at = some now }) db'.targets;
          },
        ))
unfolding observe_target adopt_baseline
observe_unseen lower new_job_id target images default now db unseen = ground (arith, unseen)

-- Observing a repository for the first time scans nothing, however many images it holds.
pub observe_target-IsBaselined :
    (lower : Text → Text) (new_job_id : ℕ → Text) (target : ScanTarget) (images : List ImageRef)
    (default : List Text) (now : ℕ) (db : Db)
    → target.baseline_at ≡ none
    → find_target target.repo db.targets ≡ some target
    → AreDistinct images
    → IsBaselined target images now db
        (observe_target lower new_job_id target images default now db)
observe_target-IsBaselined lower new_job_id target images default now db unseen known d =
    let since : IsSince target.repo db.ledger images db = record {
      still = λ image entry h. h;
      fresh = unseen_fresh target.repo db.ledger images;
    } in
    rw (observe_unseen lower new_job_id target images default now db unseen) (
      adopt_baseline-IsBaselined target images now db _ known
        (adopt_images-IsAdopted target.repo db.ledger images db d since))
