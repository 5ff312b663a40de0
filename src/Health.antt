-- ===== src/Health.antt =====
-- The health score of a project: backend/app/core/health.py. The queries are lists of rows, newest
-- first where the source orders them so. Deductions are given by their size. Percentages are whole
-- tenths, and averages are compared exactly; the messages are left out but for the factor they name.
pub mod Score
mod Tests
use rotsy.Base.{
  ℕ, zero, suc, ◌+◌, ◌-◌, ◌*◌, min, max, Bool, true, false, not, ◌||◌, Option, none, some, List, [],
  ◌∷◌, ◌++◌, Text, text, text_eq, has_text, ltb, leb, ◌==◌, if◌then◌else◌, length, take,
}

-- A latest successful run, with the status of its quality gate if there is one.
pub record AnalysisRun : Type 0 where
  pub gate_status : Option Text
  pub vulnerabilities : Option ℕ
  pub bugs : Option ℕ
  pub coverage : Option ℕ
  pub duplication_pct : Option ℕ

pub data Factor : Type 0 where
  gate_failed gate_warning vulnerable buggy uncovered duplicated insightful clean : Factor
  no_project no_analysis : Factor

pub record HealthScore : Type 0 where
  pub score : ℕ
  pub factors : List Factor
  pub has_data : Bool

-- A deduction, and its message if there is one.
abbrev pub Deduction : Type 0
Deduction = ℕ × Option Factor

abbrev pub no_deduction : Deduction
no_deduction = (0, none)

abbrev pub gate_statuses : List AnalysisRun → List Text
gate_statuses [] = []
gate_statuses (run ∷ runs) = elim run.gate_status [
  | none ↦ gate_statuses runs
  | some status ↦ status ∷ gate_statuses runs
]

unfoldable pub gate_deduction : List AnalysisRun → Deduction
gate_deduction runs =
    if has_text (text "ERROR") (gate_statuses runs)
    then (40, some gate_failed)
    else if has_text (text "WARN") (gate_statuses runs)
    then (15, some gate_warning)
    else no_deduction

-- `sum(x or 0 for …)`
abbrev pub total : (AnalysisRun → Option ℕ) → List AnalysisRun → ℕ
total column [] = 0
total column (run ∷ runs) = (elim (column run) [ none ↦ 0 | some n ↦ n ]) + total column runs

-- The rows where the column is set.
abbrev pub counted : (AnalysisRun → Option ℕ) → List AnalysisRun → ℕ
counted column [] = 0
counted column (run ∷ runs) = (elim (column run) [ none ↦ 0 | some _ ↦ 1 ]) + counted column runs

unfoldable pub vulnerability_deduction : List AnalysisRun → Deduction
vulnerability_deduction runs =
    let found = total (λ run. run.vulnerabilities) runs in
    if found == 0 then no_deduction else (min (5 * found) 30, some vulnerable)

unfoldable pub bug_deduction : List AnalysisRun → Deduction
bug_deduction runs =
    let found = total (λ run. run.bugs) runs in
    if found == 0 then no_deduction else (min (2 * found) 20, some buggy)

-- The average is at least 50%, or unknown: the sum is at least 500 tenths for each row.
unfoldable pub coverage_deduction : List AnalysisRun → Deduction
coverage_deduction runs =
    let rows = counted (λ run. run.coverage) runs in
    if rows == 0 || leb (500 * rows) (total (λ run. run.coverage) runs)
    then no_deduction
    else (10, some uncovered)

unfoldable pub duplication_deduction : List AnalysisRun → Deduction
duplication_deduction runs =
    let rows = counted (λ run. run.duplication_pct) runs in
    if rows == 0 || leb (total (λ run. run.duplication_pct) runs) (200 * rows)
    then no_deduction
    else (10, some duplicated)

abbrev pub per_severity : Text → ℕ
per_severity severity =
    if text_eq severity (text "CRITICAL")
    then 10
    else if text_eq severity (text "HIGH")
    then 5
    else if text_eq severity (text "MEDIUM")
    then 2
    else 0

abbrev pub severity_total : List Text → ℕ
severity_total [] = 0
severity_total (severity ∷ severities) = per_severity severity + severity_total severities

-- The five most recent insights.
unfoldable pub insight_deduction : List Text → Deduction
insight_deduction severities =
    let deduction = min (severity_total (take 5 severities)) 20 in
    if deduction == 0 then no_deduction else (deduction, some insightful)

-- The loop over the deductions: the sizes of those with a message, and the messages.
unfoldable pub apply_deductions : List Deduction → ℕ × List Factor
apply_deductions [] = (0, [])
apply_deductions ((deduction, message) ∷ deductions) =
    let (size, factors) = apply_deductions deductions in
    elim message [ none ↦ (size, factors) | some factor ↦ (deduction + size, factor ∷ factors) ]

abbrev pub all_deductions : List AnalysisRun → List Text → List Deduction
all_deductions runs severities =
    gate_deduction runs
    ∷ vulnerability_deduction runs
    ∷ bug_deduction runs
    ∷ coverage_deduction runs
    ∷ duplication_deduction runs
    ∷ insight_deduction severities
    ∷ []

-- `max(0, min(100, 100 - size))`, which subtraction on naturals gives.
unfoldable pub compute_health_score : Bool → List AnalysisRun → List Text → HealthScore
unfolding apply_deductions gate_deduction vulnerability_deduction bug_deduction coverage_deduction
    duplication_deduction insight_deduction
compute_health_score false runs severities = record {
  score = 0;
  factors = no_project ∷ [];
  has_data = false;
}
compute_health_score true [] severities = record {
  score = 0;
  factors = no_analysis ∷ [];
  has_data = false;
}
compute_health_score true (run ∷ runs) severities =
    let (size, factors) = apply_deductions (all_deductions (run ∷ runs) severities) in
    record {
      score = 100 - size;
      factors = elim factors [ [] ↦ clean ∷ [] | factor ∷ more ↦ factor ∷ more ];
      has_data = true;
    }
