-- ===== src/Scanners/Reports.antt =====
-- The JSON reports of the scanners and what is read of them: `cvss` and `parse` of trivy.py, and
-- `_normalise_severity`, `_highest_cvss` and `parse` of grype.py. A key that is missing or null is
-- `none`; a report whose values have other types raises, and is not one of these.
use rotsy.Base.{
  ℕ, max, Option, none, some, List, [], ◌∷◌, ◌++◌, Text, text, text_eq, or_blank, if◌then◌else◌,
  take, map,
}
use rotsy.Scanners.Outcome.{Finding, unknown_band, low_band, or_default}

-- `x or []`
abbrev pub or_empty : {A : Type 0} → Option (List A) → List A
or_empty none = []
or_empty (some xs) = xs

-- A score in tenths, as CVSS gives it: missing or falsy (a zero is falsy), a number or a text of one (a
-- text is truthy, also that of zero), or what `float` refuses.
pub data Score : Type 0 where
  absent : Score
  number : ℕ → Score
  unreadable : Score

-- `best = max(best, float(score or 0))`, and `continue` where `float` raises.
abbrev pub raise_to : ℕ → Score → ℕ
raise_to best absent = max best 0
raise_to best (number n) = max best n
raise_to best unreadable = best

pub data Vendor : Type 0 where
  not_a_dict : Vendor
  vendor_scores : Score → Score → Vendor

pub record TrivyEntry : Type 0 where
  pub vulnerability_id : Option Text
  pub cve : Option Text
  pub severity : Option Text
  pub pkg_name : Option Text
  pub installed_version : Option Text
  pub fixed_version : Option Text
  pub title : Option Text
  pub description : Option Text
  pub cvss : Option (List Vendor)

-- The vulnerabilities of each of the results.
abbrev pub TrivyReport : Type 0
TrivyReport = Option (List (Option (List TrivyEntry)))

unfoldable pub best_of_vendors : ℕ → List Vendor → ℕ
best_of_vendors best [] = best
best_of_vendors best (not_a_dict ∷ vendors) = best_of_vendors best vendors
best_of_vendors best (vendor_scores v3 v2 ∷ vendors) =
    best_of_vendors (raise_to (raise_to best v3) v2) vendors

-- `cvss`
unfoldable pub trivy_cvss : TrivyEntry → ℕ
unfolding best_of_vendors
trivy_cvss entry = best_of_vendors 0 (or_empty entry.cvss)

unfoldable pub trivy_finding : (Text → Text) → TrivyEntry → Finding
unfolding trivy_cvss
trivy_finding upper entry = record {
  cve = or_default (or_default unknown_band (or_blank entry.cve)) (or_blank entry.vulnerability_id);
  severity = upper (or_default unknown_band (or_blank entry.severity));
  package_name = or_blank entry.pkg_name;
  installed_version = or_blank entry.installed_version;
  fixed_version = or_blank entry.fixed_version;
  title = or_default (take 200 (or_blank entry.description)) (or_blank entry.title);
  cvss = trivy_cvss entry;
}

unfoldable pub findings_of_results : (Text → Text) → List (Option (List TrivyEntry)) → List Finding
findings_of_results upper [] = []
findings_of_results upper (result ∷ results) =
    map (trivy_finding upper) (or_empty result) ++ findings_of_results upper results

unfoldable pub parse_trivy : (Text → Text) → TrivyReport → List Finding
unfolding findings_of_results
parse_trivy upper raw = findings_of_results upper (or_empty raw)

-- `metrics.baseScore` and `score` of one entry of `cvss`.
pub record GrypeScore : Type 0 where
  pub base_score : Score
  pub score : Score

pub record GrypeMatch : Type 0 where
  pub vulnerability_id : Option Text
  pub severity : Option Text
  pub description : Option Text
  pub fix_versions : Option (List Text)
  pub artifact_name : Option Text
  pub artifact_version : Option Text
  pub related_vulnerabilities : Option (List (Option (List GrypeScore)))

-- `a or b`
abbrev pub or_score : Score → Score → Score
or_score absent other = other
or_score unreadable other = unreadable
or_score (number n) other = number n

unfoldable pub best_of_scores : ℕ → List GrypeScore → ℕ
best_of_scores best [] = best
best_of_scores best (s ∷ scores) =
    best_of_scores (raise_to best (or_score s.base_score s.score)) scores

unfoldable pub best_of_related : ℕ → List (Option (List GrypeScore)) → ℕ
unfolding best_of_scores
best_of_related best [] = best
best_of_related best (related ∷ rest) =
    best_of_related (best_of_scores best (or_empty related)) rest

unfoldable pub highest_cvss : GrypeMatch → ℕ
unfolding best_of_related
highest_cvss found = best_of_related 0 (or_empty found.related_vulnerabilities)

abbrev pub negligible : Text
negligible = text "NEGLIGIBLE"

-- `_SEVERITY_ALIASES.get(raw, raw)`
abbrev pub alias : Text → Text
alias raw = if text_eq raw negligible then low_band else raw

unfoldable pub normalise_severity : (Text → Text) → Option Text → Text
normalise_severity upper value = alias (upper (or_default unknown_band (or_blank value)))

abbrev pub first_or_blank : List Text → Text
first_or_blank [] = []
first_or_blank (t ∷ ts) = t

unfoldable pub grype_finding : (Text → Text) → GrypeMatch → Finding
unfolding highest_cvss normalise_severity
grype_finding upper found = record {
  cve = or_default unknown_band (or_blank found.vulnerability_id);
  severity = normalise_severity upper found.severity;
  package_name = or_blank found.artifact_name;
  installed_version = or_blank found.artifact_version;
  fixed_version = first_or_blank (or_empty found.fix_versions);
  title = take 200 (or_blank found.description);
  cvss = highest_cvss found;
}

unfoldable pub parse_grype : (Text → Text) → Option (List GrypeMatch) → List Finding
unfolding grype_finding
parse_grype upper raw = map (grype_finding upper) (or_empty raw)
