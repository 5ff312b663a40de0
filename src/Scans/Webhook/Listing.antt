-- ===== src/Scans/Webhook/Listing.antt =====
-- What a listing of a repository holds.
use rotsy.Base.{
  ◌≡◌, refl, inl, inr, true, false, List, [], ◌∷◌, Text, text_eq, text_eq_iff, has_text, All, arith,
  Bool-cases, Option-cases,
}
use rotsy.Scans.Ledger.{ImageRef}
use rotsy.Scans.Trigger.Adoption.{AreDistinct}
use rotsy.Scans.Webhook.{Component, image_of, list_from, list_repo_images}

module _ (lower upper : Text → Text) where
  -- Nothing that was seen is listed again.
  list_from-unseen :
      (seen : List Text) (components : List Component) (image : Text)
      → has_text image seen ≡ true
      → All
          (λ (other : ImageRef). text_eq image other.image ≡ false)
          (list_from lower upper seen components)
  unfolding list_from
  list_from-unseen seen [] image h = tt
  list_from-unseen seen (component ∷ components) image h =
      elim (Option-cases (image_of lower upper component)) [
        | inl e ↦ rw (e, list_from) (list_from-unseen seen components image h)
        | inr (ref, e) ↦ elim (Bool-cases (has_text ref seen)) [
          | inl old ↦ rw (e, old, list_from) (list_from-unseen seen components image h)
          | inr new ↦
              rw (e, new, list_from)
                (
                  ground (arith, text_eq_iff image ref),
                  list_from-unseen (ref ∷ seen) components image (ground (arith, h)),
                )
        ]
      ]

  list_from-AreDistinct :
      (seen : List Text) (components : List Component)
      → AreDistinct (list_from lower upper seen components)
  unfolding list_from
  list_from-AreDistinct seen [] = tt
  list_from-AreDistinct seen (component ∷ components) =
      elim (Option-cases (image_of lower upper component)) [
        | inl e ↦ rw (e, list_from) (list_from-AreDistinct seen components)
        | inr (ref, e) ↦ elim (Bool-cases (has_text ref seen)) [
          | inl old ↦ rw (e, old, list_from) (list_from-AreDistinct seen components)
          | inr new ↦
              rw (e, new, list_from)
                (
                  list_from-unseen (ref ∷ seen) components ref
                      (ground (arith, (text_eq_iff ref ref).1 refl)),
                  list_from-AreDistinct (ref ∷ seen) components,
                )
        ]
      ]

  -- No image is listed twice.
  pub list_repo_images-AreDistinct :
      (components : List Component) → AreDistinct (list_repo_images lower upper components)
  unfolding list_repo_images
  list_repo_images-AreDistinct components = list_from-AreDistinct [] components
