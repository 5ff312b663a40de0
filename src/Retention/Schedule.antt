-- ===== src/Retention/Schedule.antt =====
-- `compute_next_run` and `poll_due_policies` of backend/app/services/retention.py. The job queue is a
-- parameter: `enqueue` answers with the id of the job, or `none` where it raises. Instants after the
-- year 9999 are not modelled.
use rotsy.Base.{
  ℕ, zero, suc, ◌+◌, ◌*◌, ◌≡◌, refl, ap, inl, inr, Bool, true, false, ◌&&◌, Option, none, some,
  List, [], ◌∷◌, Text, leb, length, keep_if, keep_if_yes, keep_if_no, All, arith, Bool-cases,
  Option-cases,
}
use rotsy.Retention.{RetentionPolicy}

abbrev pub microseconds_per_minute : ℕ
microseconds_per_minute = 60000000

-- `none` where it raises `ValueError`.
unfoldable pub compute_next_run : RetentionPolicy → ℕ → Option ℕ
compute_next_run policy after = elim policy.interval_minutes [
  | none ↦ none
  | some zero ↦ none
  | some (suc minutes) ↦ some (after + suc minutes * microseconds_per_minute)
]

-- The condition of the query.
abbrev pub is_due : ℕ → RetentionPolicy → Bool
is_due now policy = policy.enabled && (elim policy.interval_minutes [
  | none ↦ false
  | some _ ↦ elim policy.next_run_at [ none ↦ false | some at ↦ leb at now ]
])

-- A policy whose next run cannot be computed loses its interval.
unfoldable pub reschedule : ℕ → RetentionPolicy → RetentionPolicy
unfolding compute_next_run
reschedule now policy = elim (compute_next_run policy now) [
  | some at ↦ record policy { next_run_at = some at }
  | none ↦ record policy { interval_minutes = none; next_run_at = none }
]

module _ {Queue : Type 0} (enqueue : ℕ → Queue → Option Text × Queue) where
  -- Over the rows of the table: the ids of the jobs, the rows and the queue.
  unfoldable pub poll_due_policies :
      ℕ → List RetentionPolicy → Queue → List Text × List RetentionPolicy × Queue
  unfolding reschedule
  poll_due_policies now [] queue = ([], [], queue)
  poll_due_policies now (policy ∷ policies) queue = elim (is_due now policy) [
    | false ↦
        let (enqueued, kept, queue') = poll_due_policies now policies queue in
        (enqueued, policy ∷ kept, queue')
    | true ↦
        let (job, queue') = enqueue policy.id queue in
        let (enqueued, kept, queue'') = poll_due_policies now policies queue' in
        elim job [
          | none ↦ (enqueued, policy ∷ kept, queue'')
          | some id ↦ (id ∷ enqueued, reschedule now policy ∷ kept, queue'')
        ]
  ]

  -- A policy that was rescheduled is not due at once.
  reschedule-due : (now : ℕ) (policy : RetentionPolicy) → is_due now (reschedule now policy) ≡ false
  unfolding reschedule compute_next_run
  reschedule-due now policy = elim (Option-cases policy.interval_minutes) [
    | inl e ↦ ground (arith, e)
    | inr (zero, e) ↦ ground (arith, e)
    | inr (suc minutes, e) ↦ ground (arith, e)
  ]

  module _
      (answers : (id : ℕ) (queue : Queue) → (job : Text) × ((enqueue id queue).0 ≡ some job)) where
    -- With a queue that takes every job, a poll queues one job for each due policy, and leaves no
    -- policy due at that time, so that a poll on the same tick queues none.
    pub poll_due_policies_once :
        (now : ℕ) (policies : List RetentionPolicy) (queue : Queue)
        → let (enqueued, kept, queue') = poll_due_policies now policies queue in
          (length enqueued ≡ length (keep_if (is_due now) policies))
          × All (λ policy. is_due now policy ≡ false) kept
          × ((poll_due_policies now kept queue').0 ≡ [])
    unfolding poll_due_policies
    poll_due_policies_once now [] queue = (refl, tt, refl)
    poll_due_policies_once now (policy ∷ policies) queue = elim (Bool-cases (is_due now policy)) [
      | inl due ↦
          let (job, e) = answers policy.id queue in
          let (count, none_due, again) =
            poll_due_policies_once now policies (enqueue policy.id queue).1 in
          let later = reschedule-due now policy in
          rw (due, e, poll_due_policies, keep_if_yes (is_due now) policy policies due)
            (ap suc count, (later, none_due), rw (later, poll_due_policies) again)
      | inr not_due ↦
          let (count, none_due, again) = poll_due_policies_once now policies queue in
          rw (not_due, poll_due_policies, keep_if_no (is_due now) policy policies not_due)
            (count, (not_due, none_due), rw (not_due, poll_due_policies) again)
    ]
