-- ===== src/Retention/Order.antt =====
-- The newest-first sort of the entries of one image.
use rotsy.Base.{
  ℕ, zero, suc, ◌+◌, ◌≤◌, ◌<◌, ◌≡◌, refl, sym, subst, inl, inr, Bool, List, [], ◌∷◌, ltb, leb,
  if◌then◌else◌, drop, All, Any, arith, Bool-cases,
}
use rotsy.Retention.{Dated, age_key, insert_newest, sort_newest}

-- No entry is older than a later one.
abbrev pub IsSorted : List Dated → Type 0
IsSorted [] = Unit
IsSorted (entry ∷ entries) = All (λ other. age_key other ≤ age_key entry) entries × IsSorted entries

insert-below :
    (bound : ℕ) (entry : Dated) (entries : List Dated)
    → age_key entry ≤ bound
    → All (λ other. age_key other ≤ bound) entries
    → All (λ other. age_key other ≤ bound) (insert_newest entry entries)
unfolding insert_newest
insert-below bound entry [] h k = (h, tt)
insert-below bound entry (other ∷ entries) h (o, k) =
    elim (Bool-cases (ltb (age_key entry) (age_key other))) [
      | inl e ↦ rw (e, insert_newest) (o, insert-below bound entry entries h k)
      | inr e ↦ rw (e, insert_newest) (h, (o, k))
    ]

below_trans :
    (low high : ℕ) (entries : List Dated)
    → low ≤ high
    → All (λ other. age_key other ≤ low) entries
    → All (λ other. age_key other ≤ high) entries
below_trans low high [] h k = tt
below_trans low high (e ∷ entries) h (o, k) = (omega arith, below_trans low high entries h k)

insert-IsSorted :
    (entry : Dated) (entries : List Dated)
    → IsSorted entries
    → IsSorted (insert_newest entry entries)
unfolding insert_newest
insert-IsSorted entry [] h = (tt, tt)
insert-IsSorted entry (other ∷ entries) (below, h) =
    elim (Bool-cases (ltb (age_key entry) (age_key other))) [
      | inl e ↦
          rw (e, insert_newest)
            (
              insert-below (age_key other) entry entries (ground arith) below,
              insert-IsSorted entry entries h,
            )
      | inr e ↦
          let le : age_key other ≤ age_key entry = ground arith in
          rw (e, insert_newest)
            ((le, below_trans (age_key other) (age_key entry) entries le below), (below, h))
    ]

pub sort-IsSorted : (entries : List Dated) → IsSorted (sort_newest entries)
unfolding sort_newest
sort-IsSorted [] = tt
sort-IsSorted (e ∷ entries) = insert-IsSorted e (sort_newest entries) (sort-IsSorted entries)

-- How many entries pass a test.
abbrev pub count : (Dated → Bool) → List Dated → ℕ
count p [] = 0
count p (e ∷ entries) = (if p e then 1 else 0) + count p entries

count-insert :
    (p : Dated → Bool) (entry : Dated) (entries : List Dated)
    → count p (insert_newest entry entries) ≡ (if p entry then 1 else 0) + count p entries
unfolding insert_newest
count-insert p entry [] = refl
count-insert p entry (other ∷ entries) = ground (arith, count-insert p entry entries)

pub count-sort :
    (p : Dated → Bool) (entries : List Dated) → count p (sort_newest entries) ≡ count p entries
unfolding sort_newest
count-sort p [] = refl
count-sort p (e ∷ entries) =
    ground (arith, count-insert p e (sort_newest entries), count-sort p entries)

-- At least as recent, and more recent.
abbrev pub is_recent : Dated → Dated → Bool
is_recent entry other = leb (age_key entry) (age_key other)

abbrev pub is_newer : Dated → Dated → Bool
is_newer entry other = ltb (age_key entry) (age_key other)

-- An entry of a sorted list, itself included, is at most as recent as the entries before it.
recent_self :
    (sorted : List Dated) → All (λ (entry : Dated). 1 ≤ count (is_recent entry) sorted) sorted
recent_self sorted = go sorted
  where
    more :
        (x : Dated) (rest entries : List Dated)
        → All (λ (entry : Dated). 1 ≤ count (is_recent entry) rest) entries
        → All (λ (entry : Dated). 1 ≤ count (is_recent entry) (x ∷ rest)) entries
    more x rest [] k = tt
    more x rest (e ∷ entries) (o, k) = (omega arith, more x rest entries k)

    go : (rest : List Dated) → All (λ (entry : Dated). 1 ≤ count (is_recent entry) rest) rest
    go [] = tt
    go (e ∷ rest) = (ground arith, more e rest rest (go rest))

recent_cons :
    (n : ℕ) (x : Dated) (rest entries : List Dated)
    → All (λ other. age_key other ≤ age_key x) entries
    → All (λ (entry : Dated). n < count (is_recent entry) rest) entries
    → All (λ (entry : Dated). suc n < count (is_recent entry) (x ∷ rest)) entries
recent_cons n x rest [] below h = tt
recent_cons n x rest (e ∷ entries) (b, below) (o, h) =
    (ground arith, recent_cons n x rest entries below h)

pub drop-below :
    (P : Dated → Type 0) (n : ℕ) (entries : List Dated) → All P entries → All P (drop n entries)
drop-below P zero entries h = h
drop-below P (suc n) [] h = tt
drop-below P (suc n) (e ∷ entries) (o, h) = drop-below P n entries h

-- What is dropped after the first `n` has more than `n` entries at least as recent, itself included.
pub dropped-recent :
    (n : ℕ) (sorted : List Dated)
    → IsSorted sorted
    → All (λ (entry : Dated). n < count (is_recent entry) sorted) (drop n sorted)
dropped-recent zero sorted h = recent_self sorted
dropped-recent (suc n) [] h = tt
dropped-recent (suc n) (x ∷ rest) (below, h) =
    recent_cons n x rest (drop n rest)
      (drop-below (λ other. age_key other ≤ age_key x) n rest below) (dropped-recent n rest h)

none_newer :
    (bound : Dated) (entries : List Dated)
    → All (λ other. age_key other ≤ age_key bound) entries
    → count (is_newer bound) entries ≡ 0
none_newer bound [] h = refl
none_newer bound (e ∷ entries) (o, h) = ground (arith, none_newer bound entries h)

no_more :
    (x : Dated) (rest : List Dated) {n : ℕ}
    → All (λ other. age_key other ≤ age_key x) rest
    → suc n ≤ count (is_newer x) (x ∷ rest)
    → ⊥
no_more x rest below k = ground (arith, none_newer x rest below)

-- An entry with `n` newer ones is dropped.
pub newer-dropped :
    (n : ℕ) (entry : Dated) (sorted : List Dated)
    → IsSorted sorted
    → Any (λ other. other ≡ entry) sorted
    → n ≤ count (is_newer entry) sorted
    → Any (λ other. other ≡ entry) (drop n sorted)
newer-dropped zero entry sorted h m k = m
newer-dropped (suc n) entry [] h m k = m
newer-dropped (suc n) entry (x ∷ rest) (below, h) (inl e) k =
    let k' = subst (λ y. suc n ≤ count (is_newer y) (x ∷ rest)) (sym e) k in
    absurd (no_more x rest below k')
newer-dropped (suc n) entry (x ∷ rest) (below, h) (inr m) k =
    newer-dropped n entry rest h m (ground arith)
