-- ===== src/Scanners/Tallied/Bands.antt =====
-- The five severities and the grade of a row.
use rotsy.Base.{
  ℕ, ◌≡◌, refl, ◌⊎◌, inl, inr, true, false, Text, text_eq, text_eq_sound, has_text, ltb, leb,
  text_key, Bool-cases, arith, ◌&&◌,
}
use rotsy.Scanners.Outcome.{
  Finding, severities, critical_band, high_band, medium_band, low_band, unknown_band,
  severity_from_cvss, known_severity, graded, row_severity, or_default,
}

-- One of the five severities.
abbrev pub IsBand : Text → Type 0
IsBand s =
    (s ≡ critical_band)
    ⊎ ((s ≡ high_band) ⊎ ((s ≡ medium_band) ⊎ ((s ≡ low_band) ⊎ (s ≡ unknown_band))))

has_text-IsBand : (s : Text) → has_text s severities ≡ true → IsBand s
has_text-IsBand s h = ground (
  arith,
  text_eq_sound s critical_band,
  text_eq_sound s high_band,
  text_eq_sound s medium_band,
  text_eq_sound s low_band,
  text_eq_sound s unknown_band,
)

pub known_severity-IsBand : (s : Text) → IsBand (known_severity s)
known_severity-IsBand s = elim (Bool-cases (has_text s severities)) [
  | inl e ↦ rw e (has_text-IsBand s e)
  | inr e ↦ rw e (inr (inr (inr (inr refl))))
]

severity_from_cvss-IsBand : (score : ℕ) → IsBand (severity_from_cvss score)
unfolding severity_from_cvss
severity_from_cvss-IsBand score = elim (Bool-cases (leb 90 score)) [
  | inl e ↦ rw e (inl refl)
  | inr e ↦ rw e (elim (Bool-cases (leb 70 score)) [
    | inl f ↦ rw f (inr (inl refl))
    | inr f ↦ rw f (elim (Bool-cases (leb 40 score)) [
      | inl g ↦ rw g (inr (inr (inl refl)))
      | inr g ↦ rw g (inr (inr (inr (inl refl))))
    ])
  ])
]

graded-IsBand : (cvss : ℕ) (s : Text) → IsBand s → IsBand (graded cvss s)
graded-IsBand cvss s h = elim (Bool-cases (text_eq s unknown_band && ltb 0 cvss)) [
  | inl e ↦ rw e (severity_from_cvss-IsBand cvss)
  | inr e ↦ rw e h
]

severity_from_cvss-known : (score : ℕ) → text_eq (severity_from_cvss score) unknown_band ≡ false
unfolding severity_from_cvss
severity_from_cvss-known score = ground arith

-- A grade of `UNKNOWN` is one without a score.
graded_known : (cvss : ℕ) (s : Text) → (text_eq (graded cvss s) unknown_band ≡ false) ⊎ (cvss ≡ 0)
graded_known cvss s = ground (arith, severity_from_cvss-known cvss)

module _ (upper : Text → Text) (finding : Finding) where
  pub row_severity-IsBand : IsBand (row_severity upper finding)
  unfolding row_severity
  row_severity-IsBand =
      graded-IsBand finding.cvss _
        (known_severity-IsBand (upper (or_default unknown_band finding.severity)))

  pub row_severity_known :
      (text_eq (row_severity upper finding) unknown_band ≡ false) ⊎ (finding.cvss ≡ 0)
  unfolding row_severity
  row_severity_known =
      graded_known finding.cvss (known_severity (upper (or_default unknown_band finding.severity)))
