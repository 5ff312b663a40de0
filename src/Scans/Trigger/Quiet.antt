-- ===== src/Scans/Trigger/Quiet.antt =====
-- One round of `observe_target`'s loop: what it leaves behind for the image it looked at.
pub mod Rounds
pub mod Twice
use rotsy.Base.{
  ℕ, suc, ◌≡◌, refl, sym, ap, ◌∙◌, inl, inr, Bool, true, false, not, ◌&&◌, Option, none, some, List,
  [], ◌∷◌, ◌++◌, Text, text, text_eq, text_eq_iff, text_eq_refl, if◌then◌else◌, All, arith,
  Bool-cases, Option-cases, length,
}
use rotsy.Scans.Ledger.{
  ImageState, queued, ScanTarget, ScannedImage, Db, ImageRef, is_entry, find_entry, update_entry,
  new_entry, add_entry,
}
use rotsy.Scans.Ledger.Queries.{
  KeepsKey, changed, find-update_self, find-update_ne, find-append, find_head, find_entry-key,
}
use rotsy.Scans.Trigger.{
  is_repush, is_given, repushed, in_flight, scan_job, enqueue_scan, entry_to_observe, observe_image,
  ◌>>=◌,
}
use rotsy.Scans.Trigger.Push.{
  wants_scan, QueuesOne, enqueue-QueuesOne, IsReady, SameElsewhere, add-others,
}
use rotsy.Scans.Trigger.Ingest.{enqueue_up}

-- The image is in the ledger, which does not ask for a scan of it.
abbrev pub IsSettled : Text → Db → ImageRef → Type 0
IsSettled repo db ref =
    (entry : ScannedImage) × (find_entry repo ref.image db.ledger ≡ some entry)
    × (wants_scan ref (some entry) ≡ false)

module _ (lower : Text → Text) (new_job_id : ℕ → Text) (repo : Text) (ref : ImageRef)
    (scanners : List Text) where
  abbrev pub Elsewhere : Db → Db → Type 0
  Elsewhere = SameElsewhere lower new_job_id repo ref scanners (text "push")

  abbrev pub Ready : Db → ScannedImage → Db → Type 0
  Ready = IsReady lower new_job_id repo ref scanners (text "push")

  -- An image that is left alone is settled, at most with its digest filled in.
  pub record LeftAlone (db db' : Db) : Type 0 where
    pub settled : IsSettled repo db' ref
    pub jobs : db'.jobs ≡ db.jobs
    pub queue : db'.queue_up ≡ db.queue_up
    pub others : Elsewhere db db'

  abbrev pub IsFound : Db → Option (Option ScannedImage × Db) → Type 0
  IsFound db none = ⊥
  IsFound db (some (none, db')) = LeftAlone db db'
  IsFound db (some (some entry, mid)) = Ready db entry mid

  abbrev added : Db → Db
  added db = record db {
    ledger = db.ledger ++ new_entry db.next_id repo ref.image ref.digest queued (text "push") ∷ [];
    next_id = suc db.next_id;
  }

  observe_new_eq :
      (known : List ScannedImage) (db : Db)
      → find_entry repo ref.image known ≡ none
      → find_entry repo ref.image db.ledger ≡ none
      → entry_to_observe lower new_job_id repo known ref db
        ≡ some
            (some (new_entry db.next_id repo ref.image ref.digest queued (text "push")), added db)
  unfolding entry_to_observe add_entry
  observe_new_eq known db k e = ground (arith, k, e)

  pub observe_new :
      (known : List ScannedImage) (db : Db)
      → find_entry repo ref.image known ≡ none
      → find_entry repo ref.image db.ledger ≡ none
      → IsFound db (entry_to_observe lower new_job_id repo known ref db)
  observe_new known db k e =
      let entry = new_entry db.next_id repo ref.image ref.digest queued (text "push") in
      let same : is_entry repo ref.image entry ≡ true =
        ground (arith, text_eq_refl repo, text_eq_refl ref.image) in
      rw (observe_new_eq known db k e) (record {
        wanted = rw e;
        found =
            rw (find-append repo ref.image db.ledger (entry ∷ []), e)
              (find_head repo ref.image entry same);
        key = (refl, refl);
        content = refl;
        jobs = refl;
        targets = refl;
        reports = refl;
        queue = refl;
        others = add-others lower new_job_id repo ref scanners (text "push") db entry same;
      })

  abbrev backfill : ScannedImage → ScannedImage
  backfill entry = record entry { digest = ref.digest }

  abbrev wants_backfill : ScannedImage → Bool
  wants_backfill entry = elim entry.state [
    | queued ↦ false
    | _ ↦ is_given ref.digest && not (is_given entry.digest)
  ]

  module _ (known : List ScannedImage) (db : Db) (old entry : ScannedImage)
      (k : find_entry repo ref.image known ≡ some old)
      (e : find_entry repo ref.image db.ledger ≡ some entry) where
    repush_eq :
        wants_scan ref (some entry) ≡ true
        → entry_to_observe lower new_job_id repo known ref db
          ≡ some (
            some (repushed ref.digest (text "push") entry),
            record db {
              ledger = update_entry repo ref.image (repushed ref.digest (text "push")) db.ledger;
            },
          )
    unfolding entry_to_observe
    repush_eq w = rw (k, e, entry_to_observe) (ground arith)

    backfill_eq :
        wants_scan ref (some entry) ≡ false
        → wants_backfill entry ≡ true
        → entry_to_observe lower new_job_id repo known ref db
          ≡ some (none, record db { ledger = update_entry repo ref.image backfill db.ledger })
    unfolding entry_to_observe
    backfill_eq w b = rw (k, e, entry_to_observe) (ground arith)

    alone_eq :
        wants_scan ref (some entry) ≡ false
        → wants_backfill entry ≡ false
        → entry_to_observe lower new_job_id repo known ref db ≡ some (none, db)
    unfolding entry_to_observe
    alone_eq w b = rw (k, e, entry_to_observe) (ground arith)

    -- With the digest filled in the ledger holds the content that is listed.
    backfill-settled : wants_backfill entry ≡ true → wants_scan ref (some (backfill entry)) ≡ false
    backfill-settled b = ground (arith, text_eq_refl ref.digest)

    pub observe_known : IsFound db (entry_to_observe lower new_job_id repo known ref db)
    observe_known =
        let push = repushed ref.digest (text "push") in
        let push_keys : KeepsKey push = λ (x : ScannedImage). (refl, refl) in
        let fill_keys : KeepsKey backfill = λ (x : ScannedImage). (refl, refl) in
        elim (Bool-cases (wants_scan ref (some entry))) [
          | inl w ↦ rw (repush_eq w) (record {
            wanted = ap (wants_scan ref) e ∙ w;
            found =
                find-update_self repo ref.image push db.ledger push_keys
                ∙ ap (λ o. changed o push) e;
            key = find_entry-key repo ref.image db.ledger entry e;
            content = refl;
            jobs = refl;
            targets = refl;
            reports = refl;
            queue = refl;
            others = λ r i n. find-update_ne repo ref.image r i push db.ledger push_keys n;
          })
          | inr w ↦ elim (Bool-cases (wants_backfill entry)) [
            | inl b ↦ rw (backfill_eq w b) (record {
              settled = (
                backfill entry,
                find-update_self repo ref.image backfill db.ledger fill_keys
                    ∙ ap (λ o. changed o backfill) e,
                backfill-settled b,
              );
              jobs = refl;
              queue = refl;
              others = λ r i n. find-update_ne repo ref.image r i backfill db.ledger fill_keys n;
            })
            | inr b ↦ rw (alone_eq w b) (record {
              settled = (entry, e, w);
              jobs = refl;
              queue = refl;
              others = λ r i n. refl;
            })
          ]
        ]
