-- ===== src/Base/Lists.antt =====
-- Lists over native numbers, and the predicates by recursion that the statements use.
use Prim.Native.Nat.{ℕ, zero, suc}
use mathlib.Core.Path.{◌≡◌, refl}
use mathlib.Core.Logic.{◌⊎◌, inl, inr, ◌↔◌}
use mathlib.Core.Bool.{Bool, true, false, ◌&&◌, ◌||◌}
use mathlib.Core.List.{List, [], ◌∷◌, ◌++◌}
use native.Mathlib.Omega.{arith}

module _ {ℓ} {A : Type ℓ} where
  abbrev pub length : List A → ℕ
  length [] = 0
  length (x ∷ xs) = suc (length xs)

  -- Python's `any(p(x) for x in xs)` and `all(...)`.
  abbrev pub any : (A → Bool) → List A → Bool
  any p [] = false
  any p (x ∷ xs) = p x || any p xs

  abbrev pub all : (A → Bool) → List A → Bool
  all p [] = true
  all p (x ∷ xs) = p x && all p xs

  -- `[x for x in xs if p(x)]`
  abbrev pub keep_if : (A → Bool) → List A → List A
  keep_if p [] = []
  keep_if p (x ∷ xs) = elim (p x) [ true ↦ x ∷ keep_if p xs | false ↦ keep_if p xs ]

module _ {ℓ} {A : Type ℓ} (P : A → Type 0) where
  abbrev pub All : List A → Type 0
  All [] = Unit
  All (x ∷ xs) = P x × All xs

  abbrev pub Any : List A → Type 0
  Any [] = ⊥
  Any (x ∷ xs) = P x ⊎ Any xs

module _ {ℓ} {A : Type ℓ} (p : A → Bool) where
  pub any_iff : (xs : List A) → (any p xs ≡ true) ↔ Any (λ x. p x ≡ true) xs
  any_iff [] = (λ h. cc, λ h. absurd h)
  any_iff (x ∷ xs) = (λ h. ground (arith, (any_iff xs).0), λ h. ground (arith, (any_iff xs).1))

  pub any-eq-false_iff : (xs : List A) → (any p xs ≡ false) ↔ All (λ x. p x ≡ false) xs
  any-eq-false_iff [] = (λ h. tt, λ h. refl)
  any-eq-false_iff (x ∷ xs) =
      (λ h. ground (arith, (any-eq-false_iff xs).0), λ h. ground (arith, (any-eq-false_iff xs).1))

module _ {ℓ} {A : Type ℓ} (p q : A → Bool) where
  pub keep_if_congr : (xs : List A) → All (λ x. p x ≡ q x) xs → keep_if p xs ≡ keep_if q xs
  keep_if_congr [] h = refl
  keep_if_congr (x ∷ xs) (e, h) = ground (arith, keep_if_congr xs h)

  pub any_congr : (xs : List A) → All (λ x. p x ≡ q x) xs → any p xs ≡ any q xs
  any_congr [] h = refl
  any_congr (x ∷ xs) (e, h) = ground (arith, any_congr xs h)

module _ {ℓ} {A : Type ℓ} (p : A → Bool) where
  pub any-append : (xs ys : List A) → any p (xs ++ ys) ≡ (any p xs || any p ys)
  any-append [] ys = refl
  any-append (x ∷ xs) ys = ground (arith, any-append xs ys)

module _ {ℓ} {A : Type ℓ} {P Q : A → Type 0} (f : (x : A) → P x → Q x) where
  pub Any-map : (xs : List A) → Any P xs → Any Q xs
  Any-map [] h = h
  Any-map (x ∷ xs) (inl h) = inl (f x h)
  Any-map (x ∷ xs) (inr h) = inr (Any-map xs h)

  pub All-map : (xs : List A) → All P xs → All Q xs
  All-map [] h = tt
  All-map (x ∷ xs) (h, k) = (f x h, All-map xs k)

module _ {ℓ} {A : Type ℓ} (p : A → Bool) (x : A) (xs : List A) where
  pub keep_if_yes : p x ≡ true → keep_if p (x ∷ xs) ≡ x ∷ keep_if p xs
  keep_if_yes h = ground arith

  pub keep_if_no : p x ≡ false → keep_if p (x ∷ xs) ≡ keep_if p xs
  keep_if_no h = ground arith

module _ {ℓ} {A : Type ℓ} (p q : A → Bool) (weaker : (x : A) → p x ≡ true → q x ≡ true) where
  -- A weaker test before a stronger one drops nothing more.
  pub keep_if-keep_if : (xs : List A) → keep_if p (keep_if q xs) ≡ keep_if p xs
  keep_if-keep_if [] = refl
  keep_if-keep_if (x ∷ xs) = ground (arith, weaker x, keep_if-keep_if xs)

module _ {ℓ} {A : Type ℓ} where
  -- `xs[:n]` and `xs[n:]`
  abbrev pub take : ℕ → List A → List A
  take zero xs = []
  take (suc n) [] = []
  take (suc n) (x ∷ xs) = x ∷ take n xs

  abbrev pub drop : ℕ → List A → List A
  drop zero xs = xs
  drop (suc n) [] = []
  drop (suc n) (x ∷ xs) = drop n xs
