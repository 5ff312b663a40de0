-- ===== src/Scanners/Outcome.antt =====
-- The outcome of one scan and its report: `ScanOutcome` of base.py; `severity_from_cvss`,
-- `_finding_to_row` and `apply_outcome` of persistence.py, over the rows that they write. A scan's
-- findings are those of the parsers, with every key; what would raise a KeyError is `none`.
use rotsy.Base.{
  ℕ, suc, Bool, false, ◌&&◌, Option, none, some, List, [], ◌∷◌, Text, text, text_eq, has_text, Dict,
  lookup, text_key, insert, leb, ltb, if◌then◌else◌, length,
}

infixl 5 ◌>>=◌
abbrev pub ◌>>=◌ : {A B : Type 0} → Option A → (A → Option B) → Option B
none >>= f = none
some a >>= f = f a

-- What a parser makes of one vulnerability.
pub record Finding : Type 0 where
  pub cve : Text
  pub severity : Text
  pub package_name : Text
  pub installed_version : Text
  pub fixed_version : Text
  pub title : Text
  pub cvss : ℕ

pub record ScanOutcome : Type 0 where
  pub scanner : Text
  pub ok : Bool
  pub vulnerabilities : List Finding
  pub error : Text
  pub detail : Text
  pub duration_ms : ℕ

-- The outcome of a scan that did not come to a report: `ScanOutcome(scanner, False, error=...)`.
abbrev pub failed_outcome : Text → Text → Text → ℕ → ScanOutcome
failed_outcome scanner error detail duration_ms = record {
  scanner = scanner;
  ok = false;
  vulnerabilities = [];
  error = error;
  detail = detail;
  duration_ms = duration_ms;
}

-- `raw_json` as the value that is dumped.
pub record RawJson : Type 0 where
  pub findings : ℕ
  pub error : Option Text
  pub detail : Text

pub record ScanReport : Type 0 where
  pub id : ℕ
  pub target_repo : Text
  pub image : Text
  pub scanner : Text
  pub status : Text
  pub registry_ref : Text
  pub finished_at : Option ℕ
  pub duration_ms : ℕ
  pub critical : ℕ
  pub high : ℕ
  pub medium : ℕ
  pub low : ℕ
  pub unknown : ℕ
  pub error : Option Text
  pub raw_json : Option RawJson

pub record Vulnerability : Type 0 where
  pub report_id : ℕ
  pub repo : Text
  pub scanner : Text
  pub cve : Text
  pub severity : Text
  pub package_name : Text
  pub installed_version : Text
  pub fixed_version : Text
  pub title : Text
  pub cvss : ℕ

-- The five members of `SEVERITIES`.
abbrev pub critical_band : Text
critical_band = text "CRITICAL"

abbrev pub high_band : Text
high_band = text "HIGH"

abbrev pub medium_band : Text
medium_band = text "MEDIUM"

abbrev pub low_band : Text
low_band = text "LOW"

abbrev pub unknown_band : Text
unknown_band = text "UNKNOWN"

abbrev pub severities : List Text
severities = critical_band ∷ high_band ∷ medium_band ∷ low_band ∷ unknown_band ∷ []

-- `x or default`, for a text.
abbrev pub or_default : Text → Text → Text
or_default default [] = default
or_default default (c ∷ s) = c ∷ s

-- `x or None`, for a text.
abbrev pub or_none : Text → Option Text
or_none [] = none
or_none (c ∷ s) = some (c ∷ s)

unfoldable pub severity_from_cvss : ℕ → Text
severity_from_cvss score =
    if leb 90 score
    then critical_band
    else if leb 70 score
    then high_band
    else if leb 40 score
    then medium_band
    else low_band

-- `if severity not in SEVERITIES: severity = "UNKNOWN"`
abbrev pub known_severity : Text → Text
known_severity severity = if has_text severity severities then severity else unknown_band

-- The grade of a severity that is known and a score.
abbrev pub graded : ℕ → Text → Text
graded cvss severity =
    if text_eq severity unknown_band && ltb 0 cvss then severity_from_cvss cvss else severity

module _ (upper : Text → Text) where
  -- The severity that `_finding_to_row` gives a finding.
  unfoldable pub row_severity : Finding → Text
  row_severity finding =
      graded finding.cvss (known_severity (upper (or_default unknown_band finding.severity)))

  unfoldable pub finding_to_row : Finding → ℕ → Text → Text → Vulnerability
  finding_to_row finding report_id repo scanner = record {
    report_id = report_id;
    repo = repo;
    scanner = scanner;
    cve = or_default unknown_band finding.cve;
    severity = row_severity finding;
    package_name = finding.package_name;
    installed_version = finding.installed_version;
    fixed_version = finding.fixed_version;
    title = finding.title;
    cvss = finding.cvss;
  }

-- `dict.fromkeys(SEVERITIES, 0)`, with the five counts as arguments.
abbrev pub tally : ℕ → ℕ → ℕ → ℕ → ℕ → Dict Text ℕ
tally critical high medium low unknown =
    (critical_band, critical)
    ∷ (high_band, high)
    ∷ (medium_band, medium)
    ∷ (low_band, low)
    ∷ (unknown_band, unknown)
    ∷ []

-- `counts[severity] += 1`
unfoldable pub bump : Text → Dict Text ℕ → Option (Dict Text ℕ)
bump severity counts = elim (lookup severity counts) [
  | none ↦ none
  | some n ↦ some (insert severity (suc n) counts)
]

abbrev pub prepend :
    Vulnerability
    → Option (Dict Text ℕ × List Vulnerability)
    → Option (Dict Text ℕ × List Vulnerability)
prepend row none = none
prepend row (some (counts, rows)) = some (counts, row ∷ rows)

module _ (upper : Text → Text) where
  -- The loop of `apply_outcome` over the findings.
  unfoldable pub add_findings :
      ℕ → Text → Text → List Finding → Dict Text ℕ → Option (Dict Text ℕ × List Vulnerability)
  add_findings report_id repo scanner [] counts = some (counts, [])
  add_findings report_id repo scanner (finding ∷ findings) counts =
      let row : Vulnerability = finding_to_row upper finding report_id repo scanner in
      elim (bump row.severity counts) [
        | none ↦ none
        | some bumped ↦ prepend row (add_findings report_id repo scanner findings bumped)
      ]

-- `counts[severity]`
abbrev pub count_at : Text → Dict Text ℕ → Option ℕ
count_at severity counts = lookup severity counts

-- The assignments to the report, with the counts; a count that is not there raises.
unfoldable pub close_report : ℕ → ScanOutcome → Dict Text ℕ → ScanReport → Option ScanReport
close_report now outcome counts report = do
  critical ← count_at critical_band counts
  high ← count_at high_band counts
  medium ← count_at medium_band counts
  low ← count_at low_band counts
  unknown ← count_at unknown_band counts
  some (record report {
    status = if outcome.ok then text "success" else text "failed";
    critical = critical;
    high = high;
    medium = medium;
    low = low;
    unknown = unknown;
    error = or_none outcome.error;
    duration_ms = outcome.duration_ms;
    finished_at = some now;
    raw_json = some (record {
      findings = length outcome.vulnerabilities;
      error = or_none outcome.error;
      detail = outcome.detail;
    });
  })

module _ (upper : Text → Text) (now : ℕ) where
  -- `apply_outcome`: the report as it is left, and the rows that are added.
  unfoldable pub apply_outcome :
      ScanReport → ScanOutcome → Text → Option (ScanReport × List Vulnerability)
  apply_outcome report outcome repo =
      elim (add_findings upper report.id repo outcome.scanner outcome.vulnerabilities
        (tally 0 0 0 0 0)) [
          | none ↦ none
          | some (counts, rows) ↦ elim (close_report now outcome counts report) [
            | none ↦ none
            | some closed ↦ some (closed, rows)
          ]
        ]
