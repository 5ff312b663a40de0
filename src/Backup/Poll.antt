-- ===== src/Backup/Poll.antt =====
-- `poll_due_schedules` of backend/app/services/backup_schedule.py, on the job board of
-- backend/app/core/jobs.py. `fresh` gives the random id of the job of each schedule, or `none` where
-- the call to the queue raises. `now` is the same instant as `seconds`.
use mathlib.Core.List.{append-nil, append_assoc}
use rotsy.Base.{
  ℕ, suc, ◌<◌, ◌≡◌, refl, sym, ap, ◌∙◌, inl, inr, Bool, false, ◌&&◌, Option, none, some, List, [],
  ◌∷◌, ◌++◌, map, if◌then◌else◌, Text, text, decimal, leb, length, keep_if, keep_if_yes, keep_if_no,
  All, arith, Bool-cases, Option-cases,
}
use rotsy.Backup.{DateTime, BackupSchedule, stamp}
use rotsy.Backup.Calendar.{IsValid}
use rotsy.Backup.Cadence.{compute_next_run}
use rotsy.Backup.Next.{IsAfter}
use rotsy.Backup.Runs.{InWeek, compute_next_run-IsAfter}
use rotsy.Jobs.{Board, enqueue}

abbrev pub backup_job : Text
backup_job = text "run_scheduled_backup"

abbrev pub backup_payload : ℕ → Text
backup_payload id = text "{\"schedule_id\": " ++ (decimal id ++ text "}")

enqueue-queue :
    (id job_type payload : Text) (seconds : ℕ) (board : Board)
    → (enqueue id job_type payload seconds board).queue ≡ board.queue ++ (id, job_type) ∷ []
unfolding enqueue
enqueue-queue id job_type payload seconds board = refl

-- The condition of the query.
abbrev pub is_due : DateTime → BackupSchedule → Bool
is_due now schedule =
    schedule.enabled
    && (elim schedule.next_run_at [ none ↦ false | some at ↦ leb (stamp at) (stamp now) ])

later-due :
    (now at : DateTime) (schedule : BackupSchedule)
    → stamp now < stamp at
    → is_due now (record schedule { last_run_at = some now; next_run_at = some at }) ≡ false
later-due now at schedule h = ground arith

module _ (int_of : Text → Option ℕ) (next_cron : Text → DateTime → Option DateTime) where
  -- A schedule without a next run is disabled.
  unfoldable pub reschedule : DateTime → BackupSchedule → BackupSchedule
  unfolding compute_next_run
  reschedule now schedule = elim (compute_next_run int_of next_cron schedule now) [
    | some at ↦ record schedule { last_run_at = some now; next_run_at = some at }
    | none ↦ record schedule { last_run_at = some now; enabled = false; next_run_at = none }
  ]

  -- Over the rows of the table: the ids of the jobs, the rows and the board.
  unfoldable pub poll_due_schedules :
      (ℕ → Option Text)
      → DateTime
      → ℕ
      → List BackupSchedule
      → Board
      → List Text × List BackupSchedule × Board
  unfolding reschedule enqueue
  poll_due_schedules fresh now seconds [] board = ([], [], board)
  poll_due_schedules fresh now seconds (schedule ∷ schedules) board =
      let skipped = poll_due_schedules fresh now seconds schedules board in
      if is_due now schedule
      then elim (fresh schedule.id) [
        | none ↦ (skipped.0, schedule ∷ skipped.1, skipped.2)
        | some job_id ↦
            let (enqueued, kept, board') =
              poll_due_schedules fresh now seconds schedules
                (enqueue job_id backup_job (backup_payload schedule.id) seconds board) in
            (job_id ∷ enqueued, reschedule now schedule ∷ kept, board')
      ]
      else (skipped.0, schedule ∷ skipped.1, skipped.2)

  -- Every job that is reported is on the queue, behind those that were there.
  pub poll_due_schedules-queue :
      (fresh : ℕ → Option Text) (now : DateTime) (seconds : ℕ) (schedules : List BackupSchedule)
      (board : Board)
      → let (enqueued, kept, board') = poll_due_schedules fresh now seconds schedules board in
        board'.queue ≡ board.queue ++ map (λ id. (id, backup_job)) enqueued
  unfolding poll_due_schedules
  poll_due_schedules-queue fresh now seconds [] board = sym (append-nil board.queue)
  poll_due_schedules-queue fresh now seconds (schedule ∷ schedules) board =
      elim (Bool-cases (is_due now schedule)) [
        | inr idle ↦
            rw (idle, poll_due_schedules)
              (poll_due_schedules-queue fresh now seconds schedules board)
        | inl due ↦ elim (Option-cases (fresh schedule.id)) [
          | inl e ↦
              rw (due, e, poll_due_schedules)
                (poll_due_schedules-queue fresh now seconds schedules board)
          | inr (job_id, e) ↦
              rw (due, e, poll_due_schedules)
                (poll_due_schedules-queue fresh now seconds schedules
                    (enqueue job_id backup_job (backup_payload schedule.id) seconds board)
                  ∙ rw (enqueue-queue job_id backup_job (backup_payload schedule.id) seconds board)
                      (append_assoc board.queue ((job_id, backup_job) ∷ []) _))
        ]
      ]

  module _
      (cron_later : (e : Text) (after t : DateTime)
        → next_cron e after ≡ some t
        → IsAfter after t) where
    reschedule-due :
        (now : DateTime) (schedule : BackupSchedule)
        → IsValid now
        → InWeek schedule
        → is_due now (reschedule now schedule) ≡ false
    unfolding reschedule
    reschedule-due now schedule valid week =
        elim (Option-cases (compute_next_run int_of next_cron schedule now)) [
          | inl e ↦ rw (e, reschedule) refl
          | inr (at, e) ↦
              rw (e, reschedule)
                (later-due now at schedule
                  (compute_next_run-IsAfter int_of next_cron cron_later schedule now at valid week
                    e).1)
        ]

    poll-none_due :
        (fresh : ℕ → Option Text) (now : DateTime) (seconds : ℕ) (schedules : List BackupSchedule)
        (board : Board)
        → ((id : ℕ) → (job_id : Text) × (fresh id ≡ some job_id))
        → IsValid now
        → All InWeek schedules
        → let (enqueued, kept, board') = poll_due_schedules fresh now seconds schedules board in
          (length enqueued ≡ length (keep_if (is_due now) schedules))
          × All (λ schedule. is_due now schedule ≡ false) kept
    unfolding poll_due_schedules
    poll-none_due fresh now seconds [] board answers valid weeks = (refl, tt)
    poll-none_due fresh now seconds (schedule ∷ schedules) board answers valid (week, weeks) =
        elim (Bool-cases (is_due now schedule)) [
          | inr idle ↦
              let (count, rest) =
                poll-none_due fresh now seconds schedules board answers valid weeks in
              rw (idle, poll_due_schedules, keep_if_no (is_due now) schedule schedules idle)
                (count, (idle, rest))
          | inl due ↦
              let (job_id, e) = answers schedule.id in
              let (count, rest) =
                poll-none_due fresh now seconds schedules
                  (enqueue job_id backup_job (backup_payload schedule.id) seconds board) answers
                  valid weeks in
              rw (due, e, poll_due_schedules, keep_if_yes (is_due now) schedule schedules due)
                (ap suc count, (reschedule-due now schedule valid week, rest))
        ]

    poll-idle :
        (fresh : ℕ → Option Text) (now : DateTime) (seconds : ℕ) (schedules : List BackupSchedule)
        (board : Board)
        → All (λ schedule. is_due now schedule ≡ false) schedules
        → (poll_due_schedules fresh now seconds schedules board).0 ≡ []
    unfolding poll_due_schedules
    poll-idle fresh now seconds [] board h = refl
    poll-idle fresh now seconds (schedule ∷ schedules) board (idle, h) =
        rw (idle, poll_due_schedules) (poll-idle fresh now seconds schedules board h)

    -- With a queue that takes every job, a poll queues one backup for each due schedule, behind what
    -- was queued, and leaves no schedule due at that time: a second poll of that time queues nothing.
    pub poll_due_schedules-once :
        (fresh : ℕ → Option Text) (now : DateTime) (seconds : ℕ) (schedules : List BackupSchedule)
        (board : Board)
        → ((id : ℕ) → (job_id : Text) × (fresh id ≡ some job_id))
        → IsValid now
        → All InWeek schedules
        → let (enqueued, kept, board') = poll_due_schedules fresh now seconds schedules board in
          (length enqueued ≡ length (keep_if (is_due now) schedules))
          × (board'.queue ≡ board.queue ++ map (λ id. (id, backup_job)) enqueued)
          × All (λ schedule. is_due now schedule ≡ false) kept
          × ((b : Board) → (poll_due_schedules fresh now seconds kept b).0 ≡ [])
    unfolding poll_due_schedules
    poll_due_schedules-once fresh now seconds schedules board answers valid weeks =
        let (count, rest) = poll-none_due fresh now seconds schedules board answers valid weeks in
        (
          count,
          poll_due_schedules-queue fresh now seconds schedules board,
          rest,
          λ b.
              poll-idle fresh now seconds (poll_due_schedules fresh now seconds schedules board).1 b
                rest,
        )
