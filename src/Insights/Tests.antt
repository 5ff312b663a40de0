-- ===== src/Insights/Tests.antt =====
-- Analyses on a small history, and the theorem at a concrete one.
use rotsy.Base.{
  ℕ, ◌≡◌, refl, ◌↔◌, Option, none, some, leb, decimal, ◌-◌, ◌++◌, List, [], ◌∷◌, Text, text, map,
}
use rotsy.Insights.{
  Percentages, Insight, AnalysisRun, quality_gate_failed, scan_result_regressed,
  new_issues_introduced, coverage_dropped, duplication_increased, insight, previous_run, context,
  evaluate_rules, evaluate_and_store,
}
use rotsy.Insights.Quiet.{IsQuiet, IsPrevious, evaluate_and_store-IsQuiet_iff}

abbrev same : Text → Text
same t = t

-- Whole numbers, where no difference is negative.
abbrev whole : Percentages ℕ
whole = record {
  minus = λ a b. a - b;
  at_most = leb;
  five = 5;
  three = 3;
  one_decimal = λ n. decimal n ++ text ".0";
}

abbrev run : ℕ → ℕ → ℕ → AnalysisRun ℕ
run id started_at issues = record {
  id = id;
  sonar_project_id = 3;
  commit_sha = text "0123456789";
  status = text "success";
  issues_count = some issues;
  coverage = some 80;
  duplication_pct = none;
  started_at = started_at;
}

abbrev history : List (AnalysisRun ℕ)
history = run 1 10 4 ∷ run 2 20 9 ∷ []

-- The run before the second is the first, and the one before the first is the second.
first : previous_run 3 2 history ≡ some (run 1 10 4)
unfolding previous_run
first = refl

later_is_previous : previous_run 3 1 history ≡ some (run 2 20 9)
unfolding previous_run
later_is_previous = refl

more_issues :
    map
      (λ (i : Insight ℕ). i.severity)
      (evaluate_and_store same whole 6 (run 2 20 9) (text "OK") history ((1, text "OK") ∷ []) []).0
    ≡ text "HIGH" ∷ []
unfolding evaluate_and_store evaluate_rules previous_run context quality_gate_failed
    scan_result_regressed new_issues_introduced coverage_dropped duplication_increased insight
more_issues = refl

evaluate_and_store-IsQuiet_iff_example :
    (previous : Option (AnalysisRun ℕ)) × IsPrevious 3 2 history previous
    × (((evaluate_and_store same whole 6
            (run 2 20 9)
            (text "OK")
            history
            ((1, text "OK") ∷ [])
            []).0
          ≡ [])
        ↔ IsQuiet whole (context 6 (run 2 20 9) (text "OK") previous ((1, text "OK") ∷ [])))
evaluate_and_store-IsQuiet_iff_example =
    evaluate_and_store-IsQuiet_iff same whole 6 (run 2 20 9) (text "OK") history
      ((1, text "OK") ∷ []) []
