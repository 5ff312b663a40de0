-- ===== src/Health/Tests.antt =====
-- The theorems about the health score on two repositories.
use rotsy.Base.{◌≤◌, ◌≡◌, refl, true, none, some, [], ◌∷◌, text}
use rotsy.Health.{AnalysisRun, compute_health_score}
use rotsy.Health.Score.{compute_health_score_failing}

abbrev passing : AnalysisRun
passing = record {
  gate_status = some (text "OK");
  vulnerabilities = some 0;
  bugs = none;
  coverage = some 900;
  duplication_pct = some 10;
}

abbrev failing : AnalysisRun
failing = record {
  gate_status = some (text "ERROR");
  vulnerabilities = some 2;
  bugs = none;
  coverage = some 900;
  duplication_pct = none;
}

compute_health_score_failing_example :
    (compute_health_score true (passing ∷ failing ∷ []) (text "HIGH" ∷ [])).score ≤ 60
compute_health_score_failing_example =
    compute_health_score_failing passing (failing ∷ []) (text "HIGH" ∷ []) refl

passing_score : (compute_health_score true (passing ∷ []) []).score ≡ 100
unfolding compute_health_score
passing_score = refl
