-- ===== src/Scanners/Tallied.antt =====
-- The counts of a report and the rows of its findings agree.
mod Bands
pub use Bands.*
use rotsy.Base.{
  ℕ, suc, ◌+◌, ◌≡◌, refl, sym, ap, ◌∙◌, subst, ◌⊎◌, inl, inr, true, false, Option, none, some, List,
  [], ◌∷◌, Text, text, text_eq, text_eq_sound, has_text, if◌then◌else◌, length, All, map, ltb, leb,
  Dict, text_key, Bool-cases, arith, ◌&&◌,
}
use rotsy.Scanners.Outcome.{
  Finding, ScanOutcome, ScanReport, Vulnerability, severities, critical_band, high_band,
  medium_band, low_band, unknown_band, severity_from_cvss, known_severity, graded, row_severity,
  finding_to_row, tally, bump, add_findings, prepend, close_report, apply_outcome, or_default,
  or_none,
}

-- 1 for a severity that is the band, 0 for another.
abbrev hit : Text → Text → ℕ
hit band s = if text_eq s band then 1 else 0

abbrev pub count_of : Text → List Vulnerability → ℕ
count_of band [] = 0
count_of band (row ∷ rows) = hit band row.severity + count_of band rows

abbrev step : Text → Text → ℕ → ℕ
step band s n = if text_eq s band then suc n else n

-- A count from a number on.
abbrev count_from : Text → List Vulnerability → ℕ → ℕ
count_from band [] n = n
count_from band (row ∷ rows) n = count_from band rows (step band row.severity n)

count_from_of :
    (band : Text) (rows : List Vulnerability) (n : ℕ)
    → count_from band rows n ≡ count_of band rows + n
count_from_of band [] n = omega arith
count_from_of band (row ∷ rows) n =
    ground (arith, count_from_of band rows (step band row.severity n))

abbrev tallied : Text → ℕ → ℕ → ℕ → ℕ → ℕ → Dict Text ℕ
tallied s c h m l u =
    tally (step critical_band s c) (step high_band s h) (step medium_band s m) (step low_band s l)
      (step unknown_band s u)

-- A property of every severity that holds of the five.
IsBand-elim {ℓ} :
    (P : Text → Type ℓ)
    → P critical_band
    → P high_band
    → P medium_band
    → P low_band
    → P unknown_band
    → (s : Text) → IsBand s
    → P s
IsBand-elim P c h m l u s (inl e) = subst P (sym e) c
IsBand-elim P c h m l u s (inr (inl e)) = subst P (sym e) h
IsBand-elim P c h m l u s (inr (inr (inl e))) = subst P (sym e) m
IsBand-elim P c h m l u s (inr (inr (inr (inl e)))) = subst P (sym e) l
IsBand-elim P c h m l u s (inr (inr (inr (inr e)))) = subst P (sym e) u

bump-tally :
    (c h m l u : ℕ) (s : Text) → IsBand s → bump s (tally c h m l u) ≡ some (tallied s c h m l u)
unfolding bump
bump-tally c h m l u =
    IsBand-elim (λ s. bump s (tally c h m l u) ≡ some (tallied s c h m l u)) refl refl refl refl
      refl

-- A severity is counted under one band.
abbrev all_hits : Text → ℕ
all_hits s =
    hit critical_band s
    + (hit high_band s + (hit medium_band s + (hit low_band s + hit unknown_band s)))

hits : (s : Text) → IsBand s → all_hits s ≡ 1
hits = IsBand-elim (λ s. all_hits s ≡ 1) refl refl refl refl refl

module _ (upper : Text → Text) (report_id : ℕ) (repo scanner : Text) where
  abbrev row_of : Finding → Vulnerability
  row_of finding = finding_to_row upper finding report_id repo scanner

  row_of-IsBand : (finding : Finding) → IsBand (row_of finding).severity
  unfolding finding_to_row
  row_of-IsBand finding = row_severity-IsBand upper finding

  abbrev counted : ℕ → ℕ → ℕ → ℕ → ℕ → List Vulnerability → Dict Text ℕ
  counted c h m l u rows =
      tally (count_from critical_band rows c) (count_from high_band rows h)
        (count_from medium_band rows m) (count_from low_band rows l)
        (count_from unknown_band rows u)

  add_findings-step :
      (finding : Finding) (findings : List Finding) (counts bumped : Dict Text ℕ)
      → bump (row_of finding).severity counts ≡ some bumped
      → add_findings upper report_id repo scanner (finding ∷ findings) counts
        ≡ prepend (row_of finding) (add_findings upper report_id repo scanner findings bumped)
  unfolding add_findings
  add_findings-step finding findings counts bumped e = rw (e, add_findings) refl

  add_findings-tally :
      (c h m l u : ℕ) (findings : List Finding)
      → add_findings upper report_id repo scanner findings (tally c h m l u)
        ≡ some (counted c h m l u (map row_of findings), map row_of findings)
  unfolding add_findings
  add_findings-tally c h m l u [] = refl
  add_findings-tally c h m l u (finding ∷ findings) =
      let s = (row_of finding).severity in
      let bumped = tallied s c h m l u in
      add_findings-step finding findings (tally c h m l u) bumped
        (bump-tally c h m l u s (row_of-IsBand finding))
      ∙ ap (prepend (row_of finding)) (
          add_findings-tally (step critical_band s c) (step high_band s h) (step medium_band s m)
            (step low_band s l) (step unknown_band s u) findings)

  row_of-IsGraded :
      (finding : Finding)
      → (text_eq (row_of finding).severity unknown_band ≡ false) ⊎ ((row_of finding).cvss ≡ 0)
  unfolding finding_to_row
  row_of-IsGraded finding = row_severity_known upper finding

-- A row of one of the five severities, `UNKNOWN` only without a score.
abbrev pub IsGraded : Vulnerability → Type 0
IsGraded row = IsBand row.severity × ((text_eq row.severity unknown_band ≡ false) ⊎ (row.cvss ≡ 0))

-- Each count of a report is the number of the rows of that severity.
abbrev pub CountsAgree : ScanReport → List Vulnerability → Type 0
CountsAgree report rows =
    (report.critical ≡ count_of critical_band rows)
    × (report.high ≡ count_of high_band rows)
    × (report.medium ≡ count_of medium_band rows)
    × (report.low ≡ count_of low_band rows)
    × (report.unknown ≡ count_of unknown_band rows)

abbrev pub sum_of_counts : ScanReport → ℕ
sum_of_counts report =
    report.critical + (report.high + (report.medium + (report.low + report.unknown)))

-- What is left of a scan with so many findings: the report and its rows.
abbrev pub IsTallied : ℕ → Option (ScanReport × List Vulnerability) → Type 0
IsTallied n none = ⊥
IsTallied n (some (report, rows)) =
    (length rows ≡ n) × (sum_of_counts report ≡ n) × CountsAgree report rows × All IsGraded rows

abbrev total_of : List Vulnerability → ℕ
total_of rows =
    count_of critical_band rows
    + (count_of high_band rows
        + (count_of medium_band rows + (count_of low_band rows + count_of unknown_band rows)))

total_of-IsBand : (rows : List Vulnerability) → All IsGraded rows → total_of rows ≡ length rows
total_of-IsBand [] h = refl
total_of-IsBand (row ∷ rows) (h, hs) = omega (arith, total_of-IsBand rows hs, hits row.severity h.0)

module _ (upper : Text → Text) (now : ℕ) (report : ScanReport) (outcome : ScanOutcome)
    (repo : Text) where
  abbrev pub rows_of : List Vulnerability
  rows_of = map (row_of upper report.id repo outcome.scanner) outcome.vulnerabilities

  abbrev pub closed_report : ScanReport
  closed_report = record report {
    status = if outcome.ok then text "success" else text "failed";
    critical = count_from critical_band rows_of 0;
    high = count_from high_band rows_of 0;
    medium = count_from medium_band rows_of 0;
    low = count_from low_band rows_of 0;
    unknown = count_from unknown_band rows_of 0;
    error = or_none outcome.error;
    duration_ms = outcome.duration_ms;
    finished_at = some now;
    raw_json = some (record {
      findings = length outcome.vulnerabilities;
      error = or_none outcome.error;
      detail = outcome.detail;
    });
  }

  -- No count is missing: an outcome is always written.
  pub apply_outcome_total :
      apply_outcome upper now report outcome repo ≡ some (closed_report, rows_of)
  unfolding apply_outcome close_report
  apply_outcome_total =
      rw
        (
          add_findings-tally upper report.id repo outcome.scanner 0 0 0 0 0 outcome.vulnerabilities,
          apply_outcome,
        )
        refl

  rows-IsGraded :
      (findings : List Finding)
      → All IsGraded (map (row_of upper report.id repo outcome.scanner) findings)
  rows-IsGraded [] = tt
  rows-IsGraded (finding ∷ findings) =
      let f = row_of-IsBand upper report.id repo outcome.scanner finding in
      ((f, row_of-IsGraded upper report.id repo outcome.scanner finding), rows-IsGraded findings)

  rows_length :
      (findings : List Finding)
      → length (map (row_of upper report.id repo outcome.scanner) findings) ≡ length findings
  rows_length [] = refl
  rows_length (finding ∷ findings) = ap suc (rows_length findings)

  closed_report-CountsAgree : CountsAgree closed_report rows_of
  closed_report-CountsAgree = (
    omega (arith, count_from_of critical_band rows_of 0),
    omega (arith, count_from_of high_band rows_of 0),
    omega (arith, count_from_of medium_band rows_of 0),
    omega (arith, count_from_of low_band rows_of 0),
    omega (arith, count_from_of unknown_band rows_of 0),
  )

  -- Whatever a scanner finds, the report is written: it has one row for each finding, each row has
  -- one of the five severities, and `UNKNOWN` only where its score is 0, each count is the number of
  -- the rows of that severity, and the counts add up to the number of findings.
  pub apply_outcome-IsTallied :
      IsTallied (length outcome.vulnerabilities) (apply_outcome upper now report outcome repo)
  apply_outcome-IsTallied =
      let graded = rows-IsGraded outcome.vulnerabilities in
      let n = rows_length outcome.vulnerabilities in
      let agree = closed_report-CountsAgree in
      rw apply_outcome_total (
        n,
        omega
            (arith, n, total_of-IsBand rows_of graded, agree.0, agree.1, agree.2, agree.3, agree.4),
        agree,
        graded,
      )
