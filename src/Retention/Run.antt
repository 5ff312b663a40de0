-- ===== src/Retention/Run.antt =====
-- `_delete_targets`, `run_policy` and `run_all_enabled` of backend/app/services/retention.py. Nexus
-- is a parameter: its state, `delete_component` with the reason of a failure, `trigger_compact` and
-- the listing of a repository, which is `none` where it raises. Progress messages are left out.
use rotsy.Base.{
  ℕ, zero, suc, ◌+◌, ◌≡◌, refl, inl, inr, Bool, true, false, ◌&&◌, Option, none, some, List, [],
  ◌∷◌, Text, text, if◌then◌else◌, length, take, non_empty, arith, Option-cases,
}
use rotsy.Retention.{Component, RetentionPolicy, select_for_deletion}

pub record Failure : Type 0 where
  pub name : Text
  pub version : Text
  pub reason : Text

-- `component.get(key, "?")`
abbrev or_question : Option Text → Text
or_question none = text "?"
or_question (some t) = t

abbrev failure : Component → Text → Failure
failure component reason = record {
  name = or_question component.name;
  version = or_question component.version;
  reason = reason;
}

module _ {Nexus Compact : Type 0} (delete_component : Text → Nexus → (Bool × Text) × Nexus)
    (trigger_compact : Nexus → Compact × Nexus) where
  -- The number deleted, and the failures.
  unfoldable pub delete_targets : List Component → Nexus → (ℕ × List Failure) × Nexus
  delete_targets [] nexus = ((0, []), nexus)
  delete_targets (component ∷ targets) nexus = elim (non_empty component.id) [
    | none ↦
        let ((deleted, failures), nexus') = delete_targets targets nexus in
        (
          (deleted, failure component (text "Nexus did not return a component id") ∷ failures),
          nexus',
        )
    | some id ↦
        let ((ok, reason), nexus') = delete_component id nexus in
        let ((deleted, failures), nexus'') = delete_targets targets nexus' in
        (
          (if ok then (suc deleted, failures) else (deleted, failure component reason ∷ failures)),
          nexus'',
        )
  ]

  pub record RunReport : Type 0 where
    pub repo : Text
    pub candidate_count : ℕ
    pub deleted : ℕ
    pub failed_count : ℕ
    pub failures : List Failure
    pub skipped_undated : ℕ
    pub compact : Option Compact
    pub dry_run : Bool
    pub candidates : List Component

  -- Compaction follows only if something was deleted.
  abbrev pub compacted : ℕ → Nexus → Option Compact × Nexus
  compacted zero nexus = (none, nexus)
  compacted (suc deleted) nexus =
      let (compact, nexus') = trigger_compact nexus in (some compact, nexus')

  -- From the selection on; `finished` is the time at the end.
  unfoldable pub run_selection :
      RetentionPolicy
      → Bool
      → ℕ
      → List Component
      → List Component
      → Nexus
      → RunReport × RetentionPolicy × Nexus
  unfolding delete_targets
  run_selection policy dry_run finished targets undated nexus =
      let report : ℕ → List Failure → Option Compact → RunReport = λ deleted failures compact.
        record {
          repo = policy.repo;
          candidate_count = length targets;
          deleted = deleted;
          failed_count = length failures;
          failures = take 20 failures;
          skipped_undated = length undated;
          compact = compact;
          dry_run = dry_run;
          candidates = take 50 targets;
        } in
      elim dry_run [
        | true ↦ (report (length targets) [] none, policy, nexus)
        | false ↦
            let ((deleted, failures), nexus') = delete_targets targets nexus in
            let (compact, nexus'') = compacted deleted nexus' in
            (
              report deleted failures compact,
              record policy { last_run_at = some finished },
              nexus'',
            )
      ]

  module _ (fromisoformat : Text → Option ℕ)
      (list_components : Text → Nexus → Option (List Component) × Nexus) where
    -- `none` where the run raises.
    unfoldable pub run_policy :
        RetentionPolicy → Bool → ℕ → ℕ → Nexus → Option RunReport × RetentionPolicy × Nexus
    unfolding run_selection select_for_deletion
    run_policy policy dry_run now finished nexus =
        let (listing, nexus') = list_components policy.repo nexus in
        elim listing [
          | none ↦ (none, policy, nexus')
          | some components ↦ elim (select_for_deletion fromisoformat components policy now) [
            | none ↦ (none, policy, nexus')
            | some (targets, undated) ↦
                let (report, policy', nexus'') =
                  run_selection policy dry_run finished targets undated nexus' in
                (some report, policy', nexus'')
          ]
        ]

    abbrev pub is_swept : RetentionPolicy → Bool
    is_swept policy =
        policy.enabled && (elim policy.interval_minutes [ none ↦ true | some _ ↦ false ])

    -- Over the rows of the table: a run that raises is reported and the next one follows.
    unfoldable pub run_all_enabled :
        List RetentionPolicy
        → Bool
        → ℕ
        → ℕ
        → Nexus
        → List (Option RunReport) × List RetentionPolicy × Nexus
    unfolding run_policy
    run_all_enabled [] dry_run now finished nexus = ([], [], nexus)
    run_all_enabled (policy ∷ policies) dry_run now finished nexus = elim (is_swept policy) [
      | false ↦
          let (reports, kept, nexus') = run_all_enabled policies dry_run now finished nexus in
          (reports, policy ∷ kept, nexus')
      | true ↦
          let (report, policy', nexus') = run_policy policy dry_run now finished nexus in
          let (reports, kept, nexus'') = run_all_enabled policies dry_run now finished nexus' in
          (report ∷ reports, policy' ∷ kept, nexus'')
    ]

  delete_targets-total :
      (targets : List Component) (nexus : Nexus)
      → let ((deleted, failures), nexus') = delete_targets targets nexus in
        deleted + length failures ≡ length targets
  unfolding delete_targets
  delete_targets-total [] nexus = refl
  delete_targets-total (component ∷ targets) nexus = elim (Option-cases (non_empty component.id)) [
    | inl e ↦ ground (arith, e, delete_targets-total targets nexus)
    | inr (id, e) ↦
        let nexus' = (delete_component id nexus).1 in
        ground (arith, e, delete_targets-total targets nexus')
  ]

  -- What a run reports adds up: every candidate was deleted or has a failure. A dry run changes
  -- neither Nexus nor the policy; another run stamps the policy, and asks for a compaction
  -- exactly when it deleted something.
  pub run_selection_lem :
      (policy : RetentionPolicy) (dry_run : Bool) (finished : ℕ) (targets undated : List Component)
      (nexus : Nexus)
      → let (report, policy', nexus') =
          run_selection policy dry_run finished targets undated nexus in
        (report.deleted + report.failed_count ≡ length targets)
        × (report.candidate_count ≡ length targets)
        × (policy' ≡ (if dry_run then policy else record policy { last_run_at = some finished }))
        × (nexus' ≡ (
            if dry_run
            then nexus
            else (compacted report.deleted (delete_targets targets nexus).1).1))
  unfolding run_selection
  run_selection_lem policy true finished targets undated nexus = (ground arith, refl, refl, refl)
  run_selection_lem policy false finished targets undated nexus =
      (delete_targets-total targets nexus, refl, refl, refl)
