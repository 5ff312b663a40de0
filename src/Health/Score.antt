-- ===== src/Health/Score.antt =====
-- A perfect score, and a score that is less, against the factors that are named.
use rotsy.Base.{
  ℕ, ◌-◌, ◌*◌, ◌≤◌, ◌≡◌, refl, ◌≢◌, ◌↔◌, inl, inr, true, none, some, List, [], ◌∷◌, Text, text,
  has_text, leb, ◌==◌, ◌||◌, min, take, All, arith, Bool-cases,
}
use rotsy.Health.{
  AnalysisRun, Factor, clean, Deduction, gate_deduction, vulnerability_deduction, bug_deduction,
  coverage_deduction, duplication_deduction, insight_deduction, apply_deductions, all_deductions,
  compute_health_score, gate_statuses, total, counted, severity_total,
}

-- A deduction with a message takes something off, and does not call the project clean.
abbrev pub IsHonest : Deduction → Type 0
IsHonest (size, none) = Unit
IsHonest (size, some factor) = (1 ≤ size) × (factor ≢ clean)

gate-IsHonest : (runs : List AnalysisRun) → IsHonest (gate_deduction runs)
unfolding gate_deduction
gate-IsHonest runs = elim (Bool-cases (has_text (text "ERROR") (gate_statuses runs))) [
  | inl e ↦ rw (e, gate_deduction) (omega arith, λ q. cc)
  | inr e ↦ elim (Bool-cases (has_text (text "WARN") (gate_statuses runs))) [
    | inl f ↦ rw (e, f, gate_deduction) (omega arith, λ q. cc)
    | inr f ↦ rw (e, f, gate_deduction) tt
  ]
]

vulnerability-IsHonest : (runs : List AnalysisRun) → IsHonest (vulnerability_deduction runs)
unfolding vulnerability_deduction
vulnerability-IsHonest runs = elim (Bool-cases (total (λ run. run.vulnerabilities) runs == 0)) [
  | inl e ↦ rw (e, vulnerability_deduction) tt
  | inr e ↦ rw (e, vulnerability_deduction) (ground (arith, e), λ q. cc)
]

bug-IsHonest : (runs : List AnalysisRun) → IsHonest (bug_deduction runs)
unfolding bug_deduction
bug-IsHonest runs = elim (Bool-cases (total (λ run. run.bugs) runs == 0)) [
  | inl e ↦ rw (e, bug_deduction) tt
  | inr e ↦ rw (e, bug_deduction) (ground (arith, e), λ q. cc)
]

coverage-IsHonest : (runs : List AnalysisRun) → IsHonest (coverage_deduction runs)
unfolding coverage_deduction
coverage-IsHonest runs =
    let rows = counted (λ run. run.coverage) runs in
    elim (Bool-cases (rows == 0 || leb (500 * rows) (total (λ run. run.coverage) runs))) [
      | inl e ↦ rw (e, coverage_deduction) tt
      | inr e ↦ rw (e, coverage_deduction) (omega arith, λ q. cc)
    ]

duplication-IsHonest : (runs : List AnalysisRun) → IsHonest (duplication_deduction runs)
unfolding duplication_deduction
duplication-IsHonest runs =
    let rows = counted (λ run. run.duplication_pct) runs in
    elim (Bool-cases (rows == 0 || leb (total (λ run. run.duplication_pct) runs) (200 * rows))) [
      | inl e ↦ rw (e, duplication_deduction) tt
      | inr e ↦ rw (e, duplication_deduction) (omega arith, λ q. cc)
    ]

insight-IsHonest : (severities : List Text) → IsHonest (insight_deduction severities)
unfolding insight_deduction
insight-IsHonest severities = elim (Bool-cases (min (severity_total (take 5 severities)) 20 == 0)) [
  | inl e ↦ rw (e, insight_deduction) tt
  | inr e ↦ rw (e, insight_deduction) (ground (arith, e), λ q. cc)
]

-- Nothing is taken off exactly when no factor is named, and `clean` is never one.
abbrev Adds : ℕ × List Factor → Type 0
Adds (size, []) = size ≡ 0
Adds (size, factor ∷ factors) = (1 ≤ size) × (factor ≢ clean)

apply-Adds :
    (deductions : List Deduction) → All IsHonest deductions → Adds (apply_deductions deductions)
unfolding apply_deductions
apply-Adds [] h = refl
apply-Adds ((size, none) ∷ deductions) (o, h) = apply-Adds deductions h
apply-Adds ((size, some factor) ∷ deductions) ((o, n), h) = (omega (arith, o), n)

-- With data, the score is 100 exactly when the only factor is that there is none.
pub compute_health_score_perfect :
    (run : AnalysisRun) (runs : List AnalysisRun) (severities : List Text)
    → ((compute_health_score true (run ∷ runs) severities).score ≡ 100)
      ↔ ((compute_health_score true (run ∷ runs) severities).factors ≡ clean ∷ [])
unfolding compute_health_score
compute_health_score_perfect run runs severities =
    let all = run ∷ runs in
    shown (apply_deductions (all_deductions all severities)) (
      apply-Adds (all_deductions all severities) (
        gate-IsHonest all,
        (
          vulnerability-IsHonest all,
          (
            bug-IsHonest all,
            (coverage-IsHonest all, (duplication-IsHonest all, (insight-IsHonest severities, tt))),
          ),
        ),
      ))
  where
    head : {a b : Factor} {xs ys : List Factor} → a ∷ xs ≡ b ∷ ys → a ≡ b
    head q = cc q

    shown :
        (result : ℕ × List Factor)
        → Adds result
        → (100 - result.0 ≡ 100)
          ↔ ((elim result.1 [ [] ↦ clean ∷ [] | factor ∷ more ↦ factor ∷ more ]) ≡ clean ∷ [])
    shown (size, []) h = (λ q. refl, λ q. omega (arith, h))
    shown (size, factor ∷ factors) (o, n) =
        (λ q. absurd (omega (arith, o, q)), λ q. absurd (n (head q)))

-- A failed quality gate on any repository keeps the score at 60 or below, whatever the others are.
pub compute_health_score_failing :
    (run : AnalysisRun) (runs : List AnalysisRun) (severities : List Text)
    → has_text (text "ERROR") (gate_statuses (run ∷ runs)) ≡ true
    → (compute_health_score true (run ∷ runs) severities).score ≤ 60
unfolding compute_health_score gate_deduction apply_deductions
compute_health_score_failing run runs severities h = ground (arith, h)
