-- ===== src/Jobs/Runner.antt =====
-- `JobRunner` of backend/app/core/jobs.py. A handler is code of other modules: what it reports and
-- how it ends are given by a function of the job.
use rotsy.Base.{
  ℕ, zero, suc, Option, none, some, List, [], ◌∷◌, ◌++◌, Text, text, decimal, Dict, lookup, insert,
  text_key, ltb, if◌then◌else◌,
}
use rotsy.Jobs.{
  pending, running, done, failed, cancelled, Job, progressed, phase, phase_cancelled, resulted,
  errored, JobPolicy, default_policy, delay_for, Board, get, set_job, push_event, is_cancelled,
  by_user,
}

-- One call of the progress callback.
pub record Report : Type 0 where
  pub percent : ℕ
  pub message : Text
  pub detail : Option Text

pub data Ending : Type 0 where
  returned : Text → Ending
  -- an exception, with its text
  crashed : Text → Ending
  -- `TimeoutError`, of the policy's own limit or of the handler
  timed_out : Ending
  -- `CancelledError`
  stopped_by_task : Ending

abbrev pub Handler : Type 0
Handler = Job → List Report × Ending

pub record JobRunner : Type 0 where
  pub handlers : Dict Text Handler
  pub policies : Dict Text JobPolicy

unfoldable pub register : Text → Handler → Option JobPolicy → JobRunner → JobRunner
register job_type handler policy runner = record runner {
  handlers = insert job_type handler runner.handlers;
  policies = elim policy [ none ↦ runner.policies | some p ↦ insert job_type p runner.policies ];
}

unfoldable pub policy_for : Text → JobRunner → JobPolicy
policy_for job_type runner = elim (lookup job_type runner.policies) [
  | none ↦ default_policy
  | some p ↦ p
]

-- The `progress` closure.
unfoldable pub report : Text → ℕ → Report → Board → Board
unfolding set_job push_event
report job_id now r board = push_event job_id (progressed r.percent r.message r.detail) (
    set_job job_id
      (λ job. record job {
        progress = r.percent;
        message = r.message;
        status = running;
        updated_at = now;
        detail = elim r.detail [ none ↦ job.detail | some d ↦ some d ];
      })
      board)

unfoldable pub report_all : Text → ℕ → List Report → Board → Board
unfolding report
report_all job_id now [] board = board
report_all job_id now (r ∷ rs) board = report_all job_id now rs (report job_id now r board)

unfoldable pub finish : Text → ℕ → Text → Board → Board
unfolding set_job push_event
finish job_id now result board = push_event job_id (resulted result) (
    set_job job_id
      (λ job. record job {
        status = done;
        progress = 100;
        message = text "completed";
        result = some result;
        updated_at = now;
      })
      board)

unfoldable pub finish_cancelled : Text → ℕ → Board → Board
unfolding set_job push_event
finish_cancelled job_id now board = push_event job_id (phase_cancelled by_user) (
    set_job job_id (λ job. record job { status = cancelled; message = by_user; updated_at = now })
      board)

-- From `if job.retry_count < policy.max_retries` on; `job` is the snapshot of the start.
unfoldable pub fail_or_retry : JobPolicy → Job → Text → Text → ℕ → Text → Board → Board
unfolding set_job push_event delay_for
fail_or_retry policy job job_id job_type now why board =
    let attempt = suc job.retry_count in
    let retried =
      push_event job_id
        (phase (
          text "retry "
          ++ (decimal attempt ++ (text "/" ++ (decimal policy.max_retries ++ (text ": " ++ why))))))
        (set_job job_id
          (λ j. record j {
            status = pending;
            retry_count = attempt;
            message = text "retrying after failure: " ++ why;
            updated_at = now;
          })
          board) in
    if ltb job.retry_count policy.max_retries
    then record retried {
      sleeping = retried.sleeping ++ ((job_id, job_type), delay_for policy job.retry_count) ∷ [];
    }
    else push_event job_id (errored why)
        (set_job job_id (λ j. record j { status = failed; message = why; updated_at = now }) board)

-- The `try`. A `TimeoutError` where the policy has no timeout is formatted as a number that is
-- `None`, and the `TypeError` leaves the handler of exceptions with nothing written.
unfoldable pub conclude : JobPolicy → Job → Text → Text → ℕ → Ending → Board → Board
unfolding finish finish_cancelled fail_or_retry
conclude policy job job_id job_type now (returned result) board = finish job_id now result board
conclude policy job job_id job_type now stopped_by_task board = finish_cancelled job_id now board
conclude policy job job_id job_type now (crashed why) board =
    fail_or_retry policy job job_id job_type now why board
conclude policy job job_id job_type now timed_out board = elim policy.timeout [
  | none ↦ board
  | some seconds ↦
      fail_or_retry policy job job_id job_type now
        (text "timed out after " ++ (decimal seconds ++ text "s")) board
]

unfoldable pub start_job : Text → ℕ → Board → Board
unfolding set_job push_event
start_job job_id now board = push_event job_id (phase (text "started")) (
    set_job job_id
      (λ job. record job { status = running; message = text "started"; updated_at = now }) board)

-- `_run_one`
unfoldable pub run_one : JobRunner → Text → Text → ℕ → Board → Board
unfolding start_job report_all conclude policy_for set_job
run_one runner job_id job_type now board = elim (get job_id board) [
  | none ↦ board
  | some job ↦ if is_cancelled job then board else elim (lookup job_type runner.handlers) [
    | none ↦
        set_job job_id
          (λ j. record j {
            status = failed;
            message = text "no handler for " ++ job_type;
            updated_at = now;
          })
          board
    | some handler ↦
        let (reports, ending) = handler job in
        conclude (policy_for job_type runner) job job_id job_type now ending
          (report_all job_id now reports (start_job job_id now board))
  ]
]

-- One turn of `_loop`, with the task that it creates run to its end.
unfoldable pub work : JobRunner → ℕ → Board → Board
unfolding run_one
work runner now board = elim board.queue [
  | [] ↦ board
  | (job_id, job_type) ∷ queue ↦ run_one runner job_id job_type now (record board { queue = queue })
]

-- The first retry that sleeps wakes up, and its job is back on the queue.
unfoldable pub wake : Board → Board
wake board = elim board.sleeping [
  | [] ↦ board
  | (item, delay) ∷ sleeping ↦ record board {
    queue = board.queue ++ item ∷ [];
    sleeping = sleeping;
  }
]

-- A turn of the loop, and the next retry that wakes up after it.
unfoldable pub turn : JobRunner → ℕ → Board → Board
unfolding work wake
turn runner now board = wake (work runner now board)

unfoldable pub turns : ℕ → JobRunner → ℕ → Board → Board
unfolding turn
turns zero runner now board = board
turns (suc n) runner now board = turns n runner now (turn runner now board)
