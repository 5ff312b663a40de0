-- ===== src/Scans/Ledger/Queries.antt =====
-- The queries after each change of the ledger.
use rotsy.Base.{
  ◌≡◌, refl, inl, inr, true, false, ◌&&◌, Option, none, some, List, [], ◌∷◌, ◌++◌, Text, text_eq,
  text_eq_iff, arith, Bool-cases,
}
use rotsy.Scans.Ledger.{ScannedImage, is_entry, find_entry, update_entry}

-- A change of a row that keeps the pair which identifies it.
abbrev pub KeepsKey : (ScannedImage → ScannedImage) → Type 0
KeepsKey change =
    (entry : ScannedImage)
    → ((change entry).repo ≡ entry.repo) × ((change entry).image ≡ entry.image)

abbrev pub changed : Option ScannedImage → (ScannedImage → ScannedImage) → Option ScannedImage
changed none change = none
changed (some entry) change = some (change entry)

pub find-update_self :
    (repo image : Text) (change : ScannedImage → ScannedImage) (ledger : List ScannedImage)
    → KeepsKey change
    → find_entry repo image (update_entry repo image change ledger)
      ≡ changed (find_entry repo image ledger) change
unfolding find_entry update_entry
find-update_self repo image change [] keeps = refl
find-update_self repo image change (entry ∷ ledger) keeps =
    ground (arith, keeps entry, find-update_self repo image change ledger keeps)

-- A row of another pair is found as before.
pub find-update_ne :
    (repo image repo' image' : Text) (change : ScannedImage → ScannedImage)
    (ledger : List ScannedImage)
    → KeepsKey change
    → (text_eq repo repo' && text_eq image image') ≡ false
    → find_entry repo' image' (update_entry repo image change ledger)
      ≡ find_entry repo' image' ledger
unfolding find_entry update_entry
find-update_ne repo image repo' image' change [] keeps n = refl
find-update_ne repo image repo' image' change (entry ∷ ledger) keeps n = ground (
  arith,
  keeps entry,
  find-update_ne repo image repo' image' change ledger keeps n,
  text_eq_iff entry.repo repo,
  text_eq_iff entry.image image,
)

pub find-append :
    (repo image : Text) (ledger rest : List ScannedImage)
    → find_entry repo image (ledger ++ rest) ≡ (elim (find_entry repo image ledger) [
      | none ↦ find_entry repo image rest
      | some e ↦ some e
    ])
unfolding find_entry
find-append repo image [] rest = refl
find-append repo image (entry ∷ ledger) rest = ground (arith, find-append repo image ledger rest)

-- What is found has the pair that was asked for.
pub find_entry-key :
    (repo image : Text) (ledger : List ScannedImage) (entry : ScannedImage)
    → find_entry repo image ledger ≡ some entry
    → (entry.repo ≡ repo) × (entry.image ≡ image)
unfolding find_entry
find_entry-key repo image [] entry h = cc
find_entry-key repo image (e ∷ ledger) entry h = elim (Bool-cases (is_entry repo image e)) [
  | inl m ↦
      let same : e ≡ entry = ground arith in
      rw (← same)
        ((text_eq_iff e.repo repo).0 (ground arith), (text_eq_iff e.image image).0 (ground arith))
  | inr n ↦ find_entry-key repo image ledger entry (ground arith)
]

pub find_head :
    (repo image : Text) (entry : ScannedImage)
    → is_entry repo image entry ≡ true
    → find_entry repo image (entry ∷ []) ≡ some entry
unfolding find_entry
find_head repo image entry m = rw m
