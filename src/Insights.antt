-- ===== src/Insights.antt =====
-- Smart insights: backend/app/core/insights/rules.py and backend/app/core/insights/engine.py, over the
-- rows of backend/app/models/sonar.py and backend/app/models/insight.py. Percentages are floating-point
-- numbers, whose subtraction, comparison and rendering are parameters, as is `str.lower`. Between runs that started at the same time
-- the database may choose any; the model takes the first row.
pub mod Quiet
mod Tests
use rotsy.Base.{
  ℕ, ◌-◌, Bool, true, false, not, ◌&&◌, Option, none, some, List, [], ◌∷◌, ◌++◌, Text, text,
  text_eq, decimal, Dict, lookup, nat_eq, ltb, leb, ◌==◌, if◌then◌else◌, take,
}

-- What the rules use of floating-point numbers.
pub record Percentages (F : Type 0) : Type 0 where
  pub minus : F → F → F
  pub at_most : F → F → Bool
  -- `5.0` and `3.0`
  pub five : F
  pub three : F
  -- `f"{x:.1f}"`
  pub one_decimal : F → Text

pub record RuleContext (F : Type 0) : Type 0 where
  pub project_id : ℕ
  pub commit_sha : Text
  pub issues_count : Option ℕ
  pub coverage : Option F
  pub duplication_pct : Option F
  pub quality_gate_status : Text
  pub previous_issues_count : Option ℕ
  pub previous_coverage : Option F
  pub previous_duplication_pct : Option F
  pub previous_quality_gate_status : Option Text

pub data Value (F : Type 0) : Type 0 where
  words : Text → Value F
  count : ℕ → Value F
  percentage : F → Value F

pub record Insight (F : Type 0) : Type 0 where
  pub project_id : ℕ
  pub kind : Text
  pub severity : Text
  pub title : Text
  pub evidence : Dict Text (Value F)
  pub related_commit_sha : Text
  pub related_source : Text

-- `_insight`, with the project of the context.
unfoldable pub insight :
    {F : Type 0} → Text → Text → Text → Dict Text (Value F) → RuleContext F → Insight F
insight kind severity title evidence ctx = record {
  project_id = ctx.project_id;
  kind = kind;
  severity = severity;
  title = title;
  evidence = evidence;
  related_commit_sha = ctx.commit_sha;
  related_source = text "sonar";
}

abbrev pub on_commit : {F : Type 0} → RuleContext F → Text
on_commit ctx = text " on commit " ++ take 8 ctx.commit_sha

abbrev pub is_ok : Text → Bool
is_ok status = text_eq status (text "OK")

module _ {F : Type 0} (lower : Text → Text) where
  unfoldable pub quality_gate_failed : RuleContext F → Option (Insight F)
  unfolding insight
  quality_gate_failed ctx =
      if is_ok ctx.quality_gate_status
      then none
      else some (
          insight (text "quality_gate_failed") (text "HIGH")
            (text "Quality gate " ++ (lower ctx.quality_gate_status ++ on_commit ctx))
            ((text "quality_gate_status", words ctx.quality_gate_status) ∷ []) ctx)

  unfoldable pub scan_result_regressed : RuleContext F → Option (Insight F)
  unfolding insight
  scan_result_regressed ctx = elim ctx.previous_quality_gate_status [
    | none ↦ none
    | some previous ↦
        if not (is_ok previous)
        then none
        else if is_ok ctx.quality_gate_status
        then none
        else some (
            insight (text "scan_result_changed_from_pass") (text "HIGH")
              (text "Quality gate regressed to "
                ++ (lower ctx.quality_gate_status ++ on_commit ctx))
              ((text "previous_status", words previous)
                ∷ (text "current_status", words ctx.quality_gate_status)
                ∷ [])
              ctx)
  ]

-- The pair of values that a rule compares, if both are known.
abbrev pub both : {A : Type 0} → Option A → Option A → Option (A × A)
both none b = none
both (some a) none = none
both (some a) (some b) = some (a, b)

unfoldable pub new_issues_introduced : {F : Type 0} → RuleContext F → Option (Insight F)
unfolding insight
new_issues_introduced ctx = elim (both ctx.issues_count ctx.previous_issues_count) [
  | none ↦ none
  | some (issues, previous) ↦
      if leb issues previous
      then none
      else some (
          insight (text "new_issues_introduced")
            (if leb 5 (issues - previous) then text "HIGH" else text "MEDIUM")
            (decimal (issues - previous)
              ++ (text " new issue(s) introduced by commit " ++ take 8 ctx.commit_sha))
            ((text "issues_count", count issues)
              ∷ (text "previous_issues_count", count previous)
              ∷ (text "delta", count (issues - previous))
              ∷ [])
            ctx)
]

unfoldable pub coverage_dropped : {F : Type 0} → Percentages F → RuleContext F → Option (Insight F)
unfolding insight
coverage_dropped floats ctx = elim (both ctx.coverage ctx.previous_coverage) [
  | none ↦ none
  | some (coverage, previous) ↦
      let drop = floats.minus previous coverage in
      if floats.at_most drop floats.five
      then none
      else some (
          insight (text "coverage_dropped") (text "MEDIUM")
            (text "Coverage dropped "
              ++ (floats.one_decimal drop ++ (text " points" ++ on_commit ctx)))
            ((text "coverage", percentage coverage)
              ∷ (text "previous_coverage", percentage previous)
              ∷ (text "drop", percentage drop)
              ∷ [])
            ctx)
]

unfoldable pub duplication_increased :
    {F : Type 0} → Percentages F → RuleContext F → Option (Insight F)
unfolding insight
duplication_increased floats ctx = elim (both ctx.duplication_pct ctx.previous_duplication_pct) [
  | none ↦ none
  | some (duplication, previous) ↦
      let increase = floats.minus duplication previous in
      if floats.at_most increase floats.three
      then none
      else some (
          insight (text "duplication_increased") (text "LOW")
            (text "Duplication increased "
              ++ (floats.one_decimal increase ++ (text " points" ++ on_commit ctx)))
            ((text "duplication_pct", percentage duplication)
              ∷ (text "previous_duplication_pct", percentage previous)
              ∷ (text "increase", percentage increase)
              ∷ [])
            ctx)
]

pub record AnalysisRun (F : Type 0) : Type 0 where
  pub id : ℕ
  pub sonar_project_id : ℕ
  pub commit_sha : Text
  pub status : Text
  pub issues_count : Option ℕ
  pub coverage : Option F
  pub duplication_pct : Option F
  pub started_at : ℕ

-- `_previous_run`: the newest of the project's other successful runs.
abbrev pub is_candidate : {F : Type 0} → ℕ → ℕ → AnalysisRun F → Bool
is_candidate sonar_project_id run_id run =
    run.sonar_project_id == sonar_project_id
    && not (run.id == run_id)
    && text_eq run.status (text "success")

unfoldable pub previous_run : {F : Type 0} → ℕ → ℕ → List (AnalysisRun F) → Option (AnalysisRun F)
previous_run sonar_project_id run_id [] = none
previous_run sonar_project_id run_id (run ∷ runs) =
    let rest = previous_run sonar_project_id run_id runs in
    if is_candidate sonar_project_id run_id run
    then elim rest [
      | none ↦ some run
      | some other ↦ if ltb run.started_at other.started_at then some other else some run
    ]
    else rest

unfoldable pub context :
    {F : Type 0} → ℕ → AnalysisRun F → Text → Option (AnalysisRun F) → Dict ℕ Text → RuleContext F
context project_id run gate_status previous gates = record {
  project_id = project_id;
  commit_sha = run.commit_sha;
  issues_count = run.issues_count;
  coverage = run.coverage;
  duplication_pct = run.duplication_pct;
  quality_gate_status = gate_status;
  previous_issues_count = elim previous [ none ↦ none | some p ↦ p.issues_count ];
  previous_coverage = elim previous [ none ↦ none | some p ↦ p.coverage ];
  previous_duplication_pct = elim previous [ none ↦ none | some p ↦ p.duplication_pct ];
  previous_quality_gate_status = elim previous [ none ↦ none | some p ↦ lookup p.id gates ];
}

abbrev pub created_of : {F : Type 0} → List (Option (Insight F)) → List (Insight F)
created_of [] = []
created_of (result ∷ results) =
    let rest = created_of results in elim result [ none ↦ rest | some i ↦ i ∷ rest ]

module _ {F : Type 0} (lower : Text → Text) (floats : Percentages F) where
  -- `DEFAULT_RULES`
  unfoldable pub evaluate_rules : RuleContext F → List (Option (Insight F))
  evaluate_rules ctx =
      quality_gate_failed lower ctx
      ∷ scan_result_regressed lower ctx
      ∷ new_issues_introduced ctx
      ∷ coverage_dropped floats ctx
      ∷ duplication_increased floats ctx
      ∷ []

  -- `evaluate_and_store`: what is created, and the table of insights. The gates of the runs are
  -- found by the id of the run.
  unfoldable pub evaluate_and_store :
      ℕ
      → AnalysisRun F
      → Text
      → List (AnalysisRun F)
      → Dict ℕ Text
      → List (Insight F)
      → List (Insight F) × List (Insight F)
  unfolding evaluate_rules previous_run context
  evaluate_and_store project_id run gate_status runs gates insights =
      let previous = previous_run run.sonar_project_id run.id runs in
      let created =
        created_of (evaluate_rules (context project_id run gate_status previous gates)) in
      (created, insights ++ created)
