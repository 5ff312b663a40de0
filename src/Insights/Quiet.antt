-- ===== src/Insights/Quiet.antt =====
-- When an analysis raises no insight.
use rotsy.Base.{
  ℕ, ◌≤◌, ◌≡◌, ◌≢◌, refl, ◌⊎◌, ◌↔◌, inl, inr, Bool, true, false, Option, none, some, List, [], ◌∷◌,
  Text, text, text_eq_iff, Dict, leb, ltb, ◌==◌, ==_iff, if◌then◌else◌, All, All-map, arith,
  Bool-cases, Option-cases,
}
use rotsy.Insights.{
  Percentages, RuleContext, Insight, AnalysisRun, is_ok, quality_gate_failed, scan_result_regressed,
  both, new_issues_introduced, coverage_dropped, duplication_increased, is_candidate, previous_run,
  context, created_of, evaluate_rules, evaluate_and_store,
}

-- The first value is not more than the second, where both are known.
abbrev pub NotMore : Option ℕ → Option ℕ → Type 0
NotMore (some a) (some b) = a ≤ b
NotMore none b = Unit
NotMore (some a) none = Unit

if_none_iff : {A : Type 0} (b : Bool) (x : A) → ((if b then none else some x) ≡ none) ↔ (b ≡ true)
if_none_iff true x = ((λ h. refl), (λ h. refl))
if_none_iff false x = ((λ h. cc), (λ h. cc))

-- A rule that compares two values is silent where one is not known or the test holds.
abbrev pub Passes : {A : Type 0} → (A → A → Bool) → Option A → Option A → Type 0
Passes t (some a) (some b) = t a b ≡ true
Passes t none b = Unit
Passes t (some a) none = Unit

compared_none_iff :
    {A B : Type 0} (t : A → A → Bool) (f : A → A → B) (a b : Option A)
    → ((elim (both a b) [ none ↦ none | some (x, y) ↦ if t x y then none else some (f x y) ])
        ≡ none)
      ↔ Passes t a b
compared_none_iff t f none b = ((λ h. tt), (λ h. refl))
compared_none_iff t f (some a) none = ((λ h. tt), (λ h. refl))
compared_none_iff t f (some a) (some b) = if_none_iff (t a b) (f a b)

Passes-NotMore : (a b : Option ℕ) → Passes leb a b ↔ NotMore a b
Passes-NotMore none b = ((λ h. tt), (λ h. tt))
Passes-NotMore (some a) none = ((λ h. tt), (λ h. tt))
Passes-NotMore (some a) (some b) = ((λ h. ground arith), (λ h. ground arith))

-- The values the other way round.
Passes-swap :
    {A : Type 0} (t : A → A → Bool) (a b : Option A) → Passes (λ x y. t y x) a b ↔ Passes t b a
Passes-swap t none none = ((λ h. tt), (λ h. tt))
Passes-swap t none (some b) = ((λ h. tt), (λ h. tt))
Passes-swap t (some a) none = ((λ h. tt), (λ h. tt))
Passes-swap t (some a) (some b) = ((λ h. h), (λ h. h))

both_iff : {A B C : Type 0} → A ↔ B → B ↔ C → A ↔ C
both_iff f g = ((λ a. g.0 (f.0 a)), (λ c. f.1 (g.1 c)))

-- Nothing is created where every rule is silent.
abbrev AllSilent : {A : Type 0} → List (Option A) → Type 0
AllSilent [] = Unit
AllSilent (r ∷ rs) = (r ≡ none) × AllSilent rs

created_of_nil_iff :
    {F : Type 0} (results : List (Option (Insight F)))
    → (created_of results ≡ []) ↔ AllSilent results
created_of_nil_iff [] = ((λ h. tt), (λ h. refl))
created_of_nil_iff (none ∷ results) =
    let (f, g) = created_of_nil_iff results in ((λ h. (refl, f h)), (λ h. g h.1))
created_of_nil_iff (some i ∷ results) = ((λ h. cc), (λ h. cc))

-- The difference of the two percentages, as floating-point numbers are subtracted and compared, is not
-- more than the bound.
abbrev pub differs_at_most : {F : Type 0} → Percentages F → F → F → F → Bool
differs_at_most floats bound a b = floats.at_most (floats.minus a b) bound

-- What a run must be, against the one before it, to raise nothing.
abbrev pub IsQuiet : {F : Type 0} → Percentages F → RuleContext F → Type 0
IsQuiet floats ctx =
    (ctx.quality_gate_status ≡ text "OK")
    × NotMore ctx.issues_count ctx.previous_issues_count
    × Passes (differs_at_most floats floats.five) ctx.previous_coverage ctx.coverage
    × Passes (differs_at_most floats floats.three) ctx.duplication_pct ctx.previous_duplication_pct

-- A run that succeeded, of the project, and another than the one of the id.
abbrev pub IsOther : {F : Type 0} → ℕ → ℕ → AnalysisRun F → Type 0
IsOther project id run =
    (run.sonar_project_id ≡ project) × (run.id ≢ id) × (run.status ≡ text "success")

-- The run is one of the list.
abbrev pub IsIn : {A : Type 0} → A → List A → Type 0
IsIn x [] = ⊥
IsIn x (y ∷ ys) = (x ≡ y) ⊎ IsIn x ys

-- The run is the newest of the other ones, and there is none where it is `none`.
abbrev pub IsPrevious :
    {F : Type 0} → ℕ → ℕ → List (AnalysisRun F) → Option (AnalysisRun F) → Type 0
IsPrevious project id runs none = All (λ run. ¬ IsOther project id run) runs
IsPrevious project id runs (some previous) =
    IsIn previous runs
    × IsOther project id previous
    × All (λ run. IsOther project id run → run.started_at ≤ previous.started_at) runs

module _ {F : Type 0} (lower : Text → Text) (floats : Percentages F) (ctx : RuleContext F) where
  gate_none_iff : (quality_gate_failed lower ctx ≡ none) ↔ (ctx.quality_gate_status ≡ text "OK")
  unfolding quality_gate_failed
  gate_none_iff =
      both_iff (if_none_iff (is_ok ctx.quality_gate_status) _)
        (text_eq_iff ctx.quality_gate_status (text "OK"))

  regressed_none : ctx.quality_gate_status ≡ text "OK" → scan_result_regressed lower ctx ≡ none
  unfolding scan_result_regressed
  regressed_none h = elim (Option-cases ctx.previous_quality_gate_status) [
    | inl e ↦ simp (e, scan_result_regressed)
    | inr (previous, e) ↦ elim (Bool-cases (is_ok previous)) [
      | inr f ↦ simp (e, f, scan_result_regressed)
      | inl f ↦ simp (e, f, h, scan_result_regressed)
    ]
  ]

  issues_none_iff :
      (new_issues_introduced ctx ≡ none) ↔ NotMore ctx.issues_count ctx.previous_issues_count
  unfolding new_issues_introduced
  issues_none_iff =
      both_iff (compared_none_iff leb _ ctx.issues_count ctx.previous_issues_count)
        (Passes-NotMore ctx.issues_count ctx.previous_issues_count)

  coverage_none_iff :
      (coverage_dropped floats ctx ≡ none)
      ↔ Passes (differs_at_most floats floats.five) ctx.previous_coverage ctx.coverage
  unfolding coverage_dropped
  coverage_none_iff =
      both_iff
        (compared_none_iff (λ x y. differs_at_most floats floats.five y x) _ ctx.coverage
          ctx.previous_coverage)
        (Passes-swap (differs_at_most floats floats.five) ctx.coverage ctx.previous_coverage)

  duplication_none_iff :
      (duplication_increased floats ctx ≡ none)
      ↔ Passes
          (differs_at_most floats floats.three)
          ctx.duplication_pct
          ctx.previous_duplication_pct
  unfolding duplication_increased
  duplication_none_iff =
      compared_none_iff (differs_at_most floats floats.three) _ ctx.duplication_pct
        ctx.previous_duplication_pct

  evaluate_rules-IsQuiet_iff :
      (created_of (evaluate_rules lower floats ctx) ≡ []) ↔ IsQuiet floats ctx
  unfolding evaluate_rules
  evaluate_rules-IsQuiet_iff = both_iff (created_of_nil_iff (evaluate_rules lower floats ctx)) (
    (λ (g, (r, (i, (c, (d, _))))).
        (gate_none_iff.0 g, issues_none_iff.0 i, coverage_none_iff.0 c, duplication_none_iff.0 d)),
    (λ (g, i, c, d). (
      gate_none_iff.1 g,
      (
        regressed_none g,
        (issues_none_iff.1 i, (coverage_none_iff.1 c, (duplication_none_iff.1 d, tt))),
      ),
    )),
  )

-- The condition of `_previous_run`.
is_candidate_iff :
    {F : Type 0} (project id : ℕ) (run : AnalysisRun F)
    → (is_candidate project id run ≡ true) ↔ IsOther project id run
is_candidate_iff project id run =
    let p = ==_iff run.sonar_project_id project in
    let i = ==_iff run.id id in
    let t = text_eq_iff run.status (text "success") in
    (
      (λ h. (p.0 (ground (arith, h)), (λ e. ground (arith, h, i.1 e)), t.0 (ground (arith, h)))),
      (λ (a, b, c). elim (Bool-cases (run.id == id)) [
        | inl e ↦ absurd (b (i.0 e))
        | inr e ↦ ground (arith, p.1 a, e, t.1 c)
      ]),
    )

add-IsPrevious :
    {F : Type 0} (project id : ℕ) (run : AnalysisRun F) (runs : List (AnalysisRun F))
    (rest : Option (AnalysisRun F))
    → previous_run project id runs ≡ rest
    → IsPrevious project id runs rest
    → IsPrevious project id (run ∷ runs) (previous_run project id (run ∷ runs))
unfolding previous_run
add-IsPrevious project id run runs none e all = elim (Bool-cases (is_candidate project id run)) [
  | inl c ↦
      rw (c, e, previous_run)
        (
          inl refl,
          (is_candidate_iff project id run).0 c,
          ((λ o. omega arith), All-map (λ r h o. absurd (h o)) runs all),
        )
  | inr c ↦
      rw (c, e, previous_run) ((λ o. ground (arith, c, (is_candidate_iff project id run).1 o)), all)
]
add-IsPrevious project id run runs (some other) e (there_is, is_other, all) =
    elim (Bool-cases (is_candidate project id run)) [
      | inr c ↦
          rw (c, e, previous_run)
            (
              inr there_is,
              is_other,
              ((λ o. ground (arith, c, (is_candidate_iff project id run).1 o)), all),
            )
      | inl c ↦ elim (Bool-cases (ltb run.started_at other.started_at)) [
        | inl l ↦
            rw (c, e, l, previous_run) (inr there_is, is_other, ((λ o. ground (arith, l)), all))
        | inr l ↦
            rw (c, e, l, previous_run)
              (
                inl refl,
                (is_candidate_iff project id run).0 c,
                ((λ o. omega arith), All-map (λ r h o. ground (arith, l, h o)) runs all),
              )
      ]
    ]

previous_run-IsPrevious :
    {F : Type 0} (project id : ℕ) (runs : List (AnalysisRun F))
    → IsPrevious project id runs (previous_run project id runs)
unfolding previous_run
previous_run-IsPrevious project id [] = tt
previous_run-IsPrevious project id (run ∷ runs) =
    add-IsPrevious project id run runs (previous_run project id runs) refl
      (previous_run-IsPrevious project id runs)

-- An analysis compares its run with the newest other successful run of its Sonar project, or with none
-- where there is none. It raises no insight exactly where its gate is OK and, against that run, it has
-- no more issues, and neither the floating-point drop of its coverage is more than 5 nor the
-- floating-point increase of its duplication more than 3, each where both runs have the number.
pub evaluate_and_store-IsQuiet_iff :
    {F : Type 0} (lower : Text → Text) (floats : Percentages F) (project_id : ℕ)
    (run : AnalysisRun F) (gate_status : Text) (runs : List (AnalysisRun F)) (gates : Dict ℕ Text)
    (insights : List (Insight F))
    → (previous : Option (AnalysisRun F)) × IsPrevious run.sonar_project_id run.id runs previous
      × (((evaluate_and_store lower floats project_id run gate_status runs gates insights).0 ≡ [])
          ↔ IsQuiet floats (context project_id run gate_status previous gates))
unfolding evaluate_and_store
evaluate_and_store-IsQuiet_iff lower floats project_id run gate_status runs gates insights =
    let previous = previous_run run.sonar_project_id run.id runs in
    (
      previous,
      previous_run-IsPrevious run.sonar_project_id run.id runs,
      evaluate_rules-IsQuiet_iff lower floats (context project_id run gate_status previous gates),
    )
