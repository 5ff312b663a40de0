-- ===== src/Scans/Trigger/Adoption.antt =====
-- `adopt_images`: the images of a repository that is seen for the first time become history.
use rotsy.Base.{
  ℕ, suc, ◌≡◌, refl, ◌∙◌, ◌⊎◌, inl, inr, false, ◌&&◌, Option, none, some, List, [], ◌∷◌, ◌++◌, Text,
  text, text_eq, text_eq_refl, if◌then◌else◌, All, arith, Option-cases,
}
use rotsy.Scans.Ledger.{baseline, ScannedImage, Db, ImageRef, find_entry, new_entry, add_entry}
use rotsy.Scans.Ledger.Queries.{find-append}
use rotsy.Scans.Trigger.{adopt_images, ◌>>=◌}

-- No image is listed twice, as `list_repo_images` leaves it.
abbrev pub AreDistinct : List ImageRef → Type 0
AreDistinct [] = Unit
AreDistinct (ref ∷ images) =
    All (λ (other : ImageRef). text_eq ref.image other.image ≡ false) images × AreDistinct images

-- Rows are only added, as history; jobs and reports stay.
pub record AddsHistory (db db' : Db) : Type 0 where
  pub jobs : db'.jobs ≡ db.jobs
  pub reports : db'.reports ≡ db.reports
  pub kept :
      (repo image : Text) (entry : ScannedImage)
      → find_entry repo image db.ledger ≡ some entry
      → find_entry repo image db'.ledger ≡ some entry
  pub history :
      (repo image : Text) (entry : ScannedImage)
      → find_entry repo image db'.ledger ≡ some entry
      → (find_entry repo image db.ledger ≡ some entry) ⊎ (entry.state ≡ baseline)

AddsHistory-refl : (db : Db) → AddsHistory db db
AddsHistory-refl db = record {
  jobs = refl;
  reports = refl;
  kept = λ repo image entry h. h;
  history = λ repo image entry h. inl h;
}

AddsHistory-trans : {a b c : Db} → AddsHistory a b → AddsHistory b c → AddsHistory a c
AddsHistory-trans {a} f g = record {
  jobs = g.jobs ∙ f.jobs;
  reports = g.reports ∙ f.reports;
  kept = λ repo image entry h. g.kept repo image entry (f.kept repo image entry h);
  history =
      λ repo image entry h. or_before (g.history repo image entry h) (f.history repo image entry);
}
  where
    or_before : {P Q R : Type 0} → P ⊎ R → (P → Q ⊎ R) → Q ⊎ R
    or_before (inl p) k = k p
    or_before (inr r) k = inr r

module _ (repo : Text) where
  abbrev baselined : ImageRef → Db → Db
  baselined ref db = record db {
    ledger =
        db.ledger ++ new_entry db.next_id repo ref.image ref.digest baseline (text "baseline") ∷ [];
    next_id = suc db.next_id;
  }

  add_baseline :
      (ref : ImageRef) (db : Db)
      → find_entry repo ref.image db.ledger ≡ none
      → add_entry repo ref.image ref.digest baseline (text "baseline") db ≡ some (baselined ref db)
  unfolding add_entry
  add_baseline ref db e = ground (arith, e)

  find-baselined :
      (ref : ImageRef) (db : Db) (repo' image : Text)
      → find_entry repo' image (baselined ref db).ledger
        ≡ (elim (find_entry repo' image db.ledger) [
          | none ↦
              if text_eq repo repo' && text_eq ref.image image
              then some (new_entry db.next_id repo ref.image ref.digest baseline (text "baseline"))
              else none
          | some e ↦ some e
        ])
  unfolding find_entry
  find-baselined ref db repo' image = find-append repo' image db.ledger _

  baselined-AddsHistory : (ref : ImageRef) (db : Db) → AddsHistory db (baselined ref db)
  baselined-AddsHistory ref db = record {
    jobs = refl;
    reports = refl;
    kept = λ repo' image entry h. ground (arith, find-baselined ref db repo' image, h);
    history = λ repo' image entry h. ground (arith, find-baselined ref db repo' image, h);
  }

  abbrev pub IsListed : Db → ImageRef → Type 0
  IsListed db ref = (entry : ScannedImage) × (find_entry repo ref.image db.ledger ≡ some entry)

  pub record Adopted (images : List ImageRef) (db db' : Db) : Type 0 where
    pub adds : AddsHistory db db'
    pub targets : db'.targets ≡ db.targets
    pub queue : db'.queue_up ≡ db.queue_up
    pub listed : All (IsListed db') images

  abbrev pub IsAdopted : List ImageRef → Db → Option (ℕ × Db) → Type 0
  IsAdopted images db none = ⊥
  IsAdopted images db (some (adopted, db')) = Adopted images db db'

  -- The rows of the start are all there, and a listed image that was not there still is not.
  pub record IsSince (known : List ScannedImage) (images : List ImageRef) (db : Db) : Type 0 where
    pub still :
        (image : Text) (entry : ScannedImage)
        → find_entry repo image known ≡ some entry
        → find_entry repo image db.ledger ≡ some entry
    pub fresh :
        All
          (λ (ref : ImageRef).
            find_entry repo ref.image known ≡ none → find_entry repo ref.image db.ledger ≡ none)
          images

  fresh_after :
      (known : List ScannedImage) (ref : ImageRef) (images : List ImageRef) (db : Db)
      → All (λ (other : ImageRef). text_eq ref.image other.image ≡ false) images
      → All
          (λ (other : ImageRef).
            find_entry repo other.image known ≡ none → find_entry repo other.image db.ledger ≡ none)
          images
      → All
          (λ (other : ImageRef).
            find_entry repo other.image known ≡ none
            → find_entry repo other.image (baselined ref db).ledger ≡ none)
          images
  fresh_after known ref [] db ne h = tt
  fresh_after known ref (other ∷ images) db (n, ne) (f, h) = (
    λ e. ground (arith, find-baselined ref db repo other.image, f e, n),
    fresh_after known ref images db ne h,
  )

  find-baselined_self :
      (ref : ImageRef) (db : Db)
      → find_entry repo ref.image db.ledger ≡ none
      → find_entry repo ref.image (baselined ref db).ledger
        ≡ some (new_entry db.next_id repo ref.image ref.digest baseline (text "baseline"))
  find-baselined_self ref db e =
      ground
        (arith, find-baselined ref db repo ref.image, e, text_eq_refl repo, text_eq_refl ref.image)

  -- One more image in front of what was adopted.
  Adopted-cons :
      (ref : ImageRef) (images : List ImageRef) (db mid db' : Db)
      → AddsHistory db mid
      → (mid.targets ≡ db.targets) × (mid.queue_up ≡ db.queue_up)
      → IsListed mid ref
      → Adopted images mid db'
      → Adopted (ref ∷ images) db db'
  Adopted-cons ref images db mid db' adds (targets, queue) (entry, e) a = record {
    adds = AddsHistory-trans adds a.adds;
    targets = a.targets ∙ targets;
    queue = a.queue ∙ queue;
    listed = ((entry, a.adds.kept repo ref.image entry e), a.listed);
  }

  IsAdopted-cons :
      (ref : ImageRef) (images : List ImageRef) (db mid : Db) (result : Option (ℕ × Db))
      → AddsHistory db mid
      → (mid.targets ≡ db.targets) × (mid.queue_up ≡ db.queue_up)
      → IsListed mid ref
      → IsAdopted images mid result
      → IsAdopted (ref ∷ images) db (result >>= λ (n, db'). some (suc n, db'))
  IsAdopted-cons ref images db mid none adds same l h = h
  IsAdopted-cons ref images db mid (some (n, db')) adds same l h =
      Adopted-cons ref images db mid db' adds same l h

  IsAdopted-listed :
      (ref : ImageRef) (images : List ImageRef) (db : Db) (result : Option (ℕ × Db))
      → IsListed db ref
      → IsAdopted images db result
      → IsAdopted (ref ∷ images) db result
  IsAdopted-listed ref images db none l h = h
  IsAdopted-listed ref images db (some (n, db')) l h =
      Adopted-cons ref images db db db' (AddsHistory-refl db) (refl, refl) l h

  pub adopt_images-IsAdopted :
      (known : List ScannedImage) (images : List ImageRef) (db : Db)
      → AreDistinct images
      → IsSince known images db
      → IsAdopted images db (adopt_images repo known images db)
  unfolding adopt_images
  adopt_images-IsAdopted known [] db d since = record {
    adds = AddsHistory-refl db;
    targets = refl;
    queue = refl;
    listed = tt;
  }
  adopt_images-IsAdopted known (ref ∷ images) db (ne, d) since =
      elim (Option-cases (find_entry repo ref.image known)) [
        | inr (entry, e) ↦
            let rest =
              adopt_images-IsAdopted known images db d
                (record { still = since.still; fresh = since.fresh.1 }) in
            rw (e, adopt_images)
              (IsAdopted-listed ref images db _ (entry, since.still ref.image entry e) rest)
        | inl e ↦
            let new = since.fresh.0 e in
            let mid = baselined ref db in
            let kept = (baselined-AddsHistory ref db).kept in
            let rest = adopt_images-IsAdopted known images mid d (record {
              still = λ image entry h. kept repo image entry (since.still image entry h);
              fresh = fresh_after known ref images db ne since.fresh.1;
            }) in
            rw (e, adopt_images, add_baseline ref db new)
              (IsAdopted-cons ref images db mid _ (baselined-AddsHistory ref db) (refl, refl)
                (_, find-baselined_self ref db new) rest)
      ]
