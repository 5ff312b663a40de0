-- ===== src/Jobs/Ending.antt =====
-- How a run ends, by how its handler ends.
use rotsy.Base.{
  ℕ, suc, ◌≡◌, refl, inl, inr, false, none, some, List, [], ◌∷◌, Text, text_key, lookup,
  lookup-insert_self, ltb, if◌then◌else◌, Bool-cases, Option-cases,
}
use rotsy.Jobs.{
  Status, pending, running, done, failed, cancelled, Job, JobPolicy, Board, get, set_job,
  push_event, is_cancelled,
}
use rotsy.Jobs.Runner.{
  Report, Ending, returned, crashed, timed_out, stopped_by_task, Handler, JobRunner, policy_for,
  report, report_all, finish, finish_cancelled, fail_or_retry, conclude, start_job, run_one,
}

pub get-set_job :
    (id : Text) (change : Job → Job) (board : Board) (job : Job)
    → get id board ≡ some job
    → get id (set_job id change board) ≡ some (change job)
unfolding set_job
get-set_job id change board job h = rw (h, set_job) (lookup-insert_self id (change job) board.jobs)

-- A running job stays running through the reports of its handler, with its count of retries.
abbrev pub IsRun : ℕ → Text → Board → Type 0
IsRun retries id board =
    (job : Job) × (get id board ≡ some job) × (job.status ≡ running) × (job.retry_count ≡ retries)

report-IsRun :
    (retries : ℕ) (id : Text) (now : ℕ) (r : Report) (board : Board)
    → IsRun retries id board
    → IsRun retries id (report id now r board)
unfolding report push_event
report-IsRun retries id now r board (job, h, s, n) = (_, get-set_job id _ board job h, refl, n)

pub report_all-IsRun :
    (retries : ℕ) (id : Text) (now : ℕ) (rs : List Report) (board : Board)
    → IsRun retries id board
    → IsRun retries id (report_all id now rs board)
unfolding report_all
report_all-IsRun retries id now [] board h = h
report_all-IsRun retries id now (r ∷ rs) board h =
    report_all-IsRun retries id now rs (report id now r board)
      (report-IsRun retries id now r board h)

pub start-IsRun :
    (id : Text) (now : ℕ) (board : Board) (job : Job)
    → get id board ≡ some job
    → IsRun job.retry_count id (start_job id now board)
unfolding start_job push_event
start-IsRun id now board job h = (_, get-set_job id _ board job h, refl, refl)

-- The status and the count of retries that a job has.
abbrev pub Stands : Text → Board → Status → ℕ → Type 0
Stands id board status retries =
    (job : Job) × (get id board ≡ some job) × (job.status ≡ status) × (job.retry_count ≡ retries)

-- Where a run leaves its job: a failure is retried while retries are left. A `TimeoutError`
-- without a timeout of the policy leaves the job running.
abbrev pub after_failure : JobPolicy → ℕ → Status × ℕ
after_failure policy retries =
    if ltb retries policy.max_retries then (pending, suc retries) else (failed, retries)

abbrev pub outcome : JobPolicy → ℕ → Ending → Status × ℕ
outcome policy retries (returned result) = (done, retries)
outcome policy retries stopped_by_task = (cancelled, retries)
outcome policy retries (crashed why) = after_failure policy retries
outcome policy retries timed_out = elim policy.timeout [
  | none ↦ (running, retries)
  | some seconds ↦ after_failure policy retries
]

abbrev pub StandsAt : Text → Board → Status × ℕ → Type 0
StandsAt id board (status, retries) = Stands id board status retries

pub fail_or_retry-StandsAt :
    (policy : JobPolicy) (job : Job) (id job_type : Text) (now : ℕ) (why : Text) (board : Board)
    → IsRun job.retry_count id board
    → StandsAt id
        (fail_or_retry policy job id job_type now why board)
        (after_failure policy job.retry_count)
unfolding fail_or_retry push_event
fail_or_retry-StandsAt policy job id job_type now why board (j, h, s, n) =
    elim (Bool-cases (ltb job.retry_count policy.max_retries)) [
      | inl e ↦ rw (e, fail_or_retry) (_, get-set_job id _ board j h, refl, refl)
      | inr e ↦ rw (e, fail_or_retry) (_, get-set_job id _ board j h, refl, n)
    ]

pub conclude-StandsAt :
    (policy : JobPolicy) (job : Job) (id job_type : Text) (now : ℕ) (ending : Ending)
    (board : Board)
    → IsRun job.retry_count id board
    → StandsAt id
        (conclude policy job id job_type now ending board)
        (outcome policy job.retry_count ending)
unfolding conclude
conclude-StandsAt policy job id job_type now (returned result) board (j, h, s, n) =
    unfold finish push_event in (_, get-set_job id _ board j h, refl, n)
conclude-StandsAt policy job id job_type now stopped_by_task board (j, h, s, n) =
    unfold finish_cancelled push_event in (_, get-set_job id _ board j h, refl, n)
conclude-StandsAt policy job id job_type now (crashed why) board h =
    fail_or_retry-StandsAt policy job id job_type now why board h
conclude-StandsAt policy job id job_type now timed_out board h =
    elim (Option-cases policy.timeout) [
      | inl e ↦ rw (e, conclude) h
      | inr (seconds, e) ↦
          rw (e, conclude) (fail_or_retry-StandsAt policy job id job_type now _ board h)
    ]

-- A run of a job that was not cancelled, with a registered handler, leaves the job where the
-- ending says: done, cancelled, back for a retry while any is left, failed, or, after a
-- `TimeoutError` of the handler where the policy sets no timeout, still running.
pub run_one-StandsAt :
    (runner : JobRunner) (id job_type : Text) (now : ℕ) (board : Board) (job : Job)
    (handler : Handler)
    → get id board ≡ some job
    → is_cancelled job ≡ false
    → lookup job_type runner.handlers ≡ some handler
    → StandsAt id
        (run_one runner id job_type now board)
        (outcome (policy_for job_type runner) job.retry_count (handler job).1)
unfolding run_one
run_one-StandsAt runner id job_type now board job handler h live registered =
    rw (h, live, registered, run_one)
      (conclude-StandsAt (policy_for job_type runner) job id job_type now (handler job).1 _ (
        report_all-IsRun job.retry_count id now (handler job).0 _ (start-IsRun id now board job h)))
